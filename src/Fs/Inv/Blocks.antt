-- ===== src/Fs/Inv/Blocks.antt =====
-- What truncating a file, and writing to it, do to the table of inodes and the blocks.
use so_server_and_pipes.Base.{
  ℕ, ◌≤◌, ◌<◌, ◌≡◌, sym, ap, ◌∙◌, ◌≢◌, ◌⊎◌, inl, inr, arith, update, pos, update_self, update-ne,
}
use so_server_and_pipes.Base.{subst}
use so_server_and_pipes.Fs.Exec.{Params, Inode, AllocationState, taken, free}
use so_server_and_pipes.Fs.Inv.{IsLive, Stores, IsDataBlock, WfNodes}
use so_server_and_pipes.Fs.Inv.Nodes.{data_block, other_owner, other_block}
use so_server_and_pipes.Fs.Inv.Tables.{
  update-cases, Stores-same, taken-cases, taken_kept, used_apart,
}

module _ {g : Params} {nodes : ℕ → Inode} {inodes blocks : ℕ → AllocationState} {b : ℕ}
    (w : WfNodes g nodes inodes blocks b) where
  -- A file gives back its block `c`, and its size becomes 0.
  module _ {p c : ℕ} (live : IsLive g inodes p) (st : Stores nodes p c) (v : Inode)
      (empty : v.i_size ≡ 0) where
    emptied_Stores : {q d : ℕ} → Stores (update nodes p v) q d → Stores nodes q d
    emptied_Stores {q} sq = elim (update-cases nodes p v q) [
      | inl (e, here) ↦ absurd (omega (arith, sq.some_bytes, ap (λ x. x.i_size) here, empty))
      | inr (ne, same) ↦ Stores-same (sym same) sq
    ]

    pub emptied-WfNodes : WfNodes g (update nodes p v) inodes (update blocks c free) b
    emptied-WfNodes = record {
      root_exists = w.root_exists;
      root_in_use = w.root_in_use;
      root_node = ap (λ x. x.i_node_type) (update-ne nodes p v 0 live.not_root) ∙ w.root_node;
      root_block = ap (λ x. x.i_data_block) (update-ne nodes p v 0 live.not_root) ∙ w.root_block;
      root_valid = w.root_valid;
      root_taken =
          update-ne blocks c free b (λ e. (data_block w live st).not_root (sym e)) ∙ w.root_taken;
      fits = λ q l. elim (update-cases nodes p v q) [
        | inl (e, here) ↦ omega (arith, ap (λ x. x.i_size) here, empty)
        | inr (ne, same) ↦ omega (arith, ap (λ x. x.i_size) same, w.fits q l)
      ];
      stored = λ q l. elim (update-cases nodes p v q) [
        | inl (e, here) ↦ inl (ap (λ x. x.i_size) here ∙ empty)
        | inr (ne, same) ↦ elim (other_block w live st q l ne) [
          | inl e ↦ inl (ap (λ x. x.i_size) same ∙ e)
          | inr (d, sq, db) ↦ inr (d, Stores-same same sq, db)
        ]
      ];
      apart = λ q r d lq lr sq sr. w.apart q r d lq lr (emptied_Stores sq) (emptied_Stores sr);
      owner = λ d db.
          let (q, l, sq, ne) = other_owner w live st d db in
          (q, l, Stores-same (update-ne nodes p v q ne) sq);
    }

  -- A file with bytes in block `c` has others there, no more than fit into it.
  module _ {p c : ℕ} (live : IsLive g inodes p) (st : Stores nodes p c) (v : Inode)
      (size : 0 < v.i_size) (fits : v.i_size ≤ g.block_size) (block : v.i_data_block ≡ pos c) where
    grown_Stores : {q d : ℕ} → Stores (update nodes p v) q d → Stores nodes q d
    grown_Stores {q} {d} sq = elim (update-cases nodes p v q) [
      | inl (e, here) ↦
          let there = ap (λ x. x.i_data_block) here in
          let at = sq.block in
          let same : c ≡ d = cc in subst (λ z. Stores nodes z d) e (subst (Stores nodes p) same st)
      | inr (ne, same) ↦ Stores-same (sym same) sq
    ]

    Stores_grown : {q d : ℕ} → Stores nodes q d → Stores (update nodes p v) q d
    Stores_grown {q} {d} sq = elim (update-cases nodes p v q) [
      | inl (e, here) ↦
          let there = ap (λ x. x.i_data_block) here in
          let at = sq.block in
          let old = st.block in
          let moved = ap (λ z. (nodes z).i_data_block) e in
          record { some_bytes = omega (arith, ap (λ x. x.i_size) here, size); block = cc }
      | inr (ne, same) ↦ Stores-same same sq
    ]

    pub grown-WfNodes : WfNodes g (update nodes p v) inodes blocks b
    grown-WfNodes = record {
      root_exists = w.root_exists;
      root_in_use = w.root_in_use;
      root_node = ap (λ x. x.i_node_type) (update-ne nodes p v 0 live.not_root) ∙ w.root_node;
      root_block = ap (λ x. x.i_data_block) (update-ne nodes p v 0 live.not_root) ∙ w.root_block;
      root_valid = w.root_valid;
      root_taken = w.root_taken;
      fits = λ q l. elim (update-cases nodes p v q) [
        | inl (e, here) ↦ omega (arith, ap (λ x. x.i_size) here, fits)
        | inr (ne, same) ↦ omega (arith, ap (λ x. x.i_size) same, w.fits q l)
      ];
      stored = λ q l. elim (w.stored q l) [
        | inl e ↦ elim (update-cases nodes p v q) [
          | inl (e', here) ↦
              let moved = ap (λ z. (nodes z).i_size) e' in
              absurd (omega (arith, moved, e, st.some_bytes))
          | inr (ne, same) ↦ inl (ap (λ x. x.i_size) same ∙ e)
        ]
        | inr (d, sq, db) ↦ inr (d, Stores_grown sq, db)
      ];
      apart = λ q r d lq lr sq sr. w.apart q r d lq lr (grown_Stores sq) (grown_Stores sr);
      owner = λ d db. let (q, l, sq) = w.owner d db in (q, l, Stores_grown sq);
    }

  -- A file without bytes gets the free block `c`, and bytes in it.
  module _ {p c : ℕ} (live : IsLive g inodes p) (empty : (nodes p).i_size ≡ 0)
      (unused : blocks c ≡ free) (valid : c < g.max_block_count) (v : Inode) (size : 0 < v.i_size)
      (fits : v.i_size ≤ g.block_size) (block : v.i_data_block ≡ pos c) where
    here_Stores : Stores (update nodes p v) p c
    here_Stores = record {
      some_bytes = omega (arith, ap (λ x. x.i_size) (update_self nodes p v), size);
      block = ap (λ x. x.i_data_block) (update_self nodes p v) ∙ block;
    }

    kept_block : {d : ℕ} → IsDataBlock g blocks b d → IsDataBlock g (update blocks c taken) b d
    kept_block db = record {
      valid = db.valid;
      in_use = taken_kept blocks c db.in_use;
      not_root = db.not_root;
    }

    new_block : IsDataBlock g (update blocks c taken) b c
    new_block = record {
      valid = valid;
      in_use = update_self blocks c taken;
      not_root = λ e. used_apart blocks unused w.root_taken (sym e);
    }

    -- Where the bytes of a file are after that.
    stored_Stores :
        {q d : ℕ}
        → IsLive g inodes q
        → Stores (update nodes p v) q d
        → ((p ≡ q) × (c ≡ d)) ⊎ ((p ≢ q) × Stores nodes q d × (c ≢ d))
    stored_Stores {q} {d} l sq = elim (update-cases nodes p v q) [
      | inl (e, here) ↦
          let there = ap (λ x. x.i_data_block) here in let at = sq.block in inl (e, cc)
      | inr (ne, same) ↦
          let old = Stores-same (sym same) sq in
          inr (ne, old, used_apart blocks unused (data_block w l old).in_use)
    ]

    pub stored-WfNodes : WfNodes g (update nodes p v) inodes (update blocks c taken) b
    stored-WfNodes = record {
      root_exists = w.root_exists;
      root_in_use = w.root_in_use;
      root_node = ap (λ x. x.i_node_type) (update-ne nodes p v 0 live.not_root) ∙ w.root_node;
      root_block = ap (λ x. x.i_data_block) (update-ne nodes p v 0 live.not_root) ∙ w.root_block;
      root_valid = w.root_valid;
      root_taken = taken_kept blocks c w.root_taken;
      fits = λ q l. elim (update-cases nodes p v q) [
        | inl (e, here) ↦ omega (arith, ap (λ x. x.i_size) here, fits)
        | inr (ne, same) ↦ omega (arith, ap (λ x. x.i_size) same, w.fits q l)
      ];
      stored = λ q l. elim (update-cases nodes p v q) [
        | inl (e, here) ↦
            inr (c, subst (λ z. Stores (update nodes p v) z c) e here_Stores, new_block)
        | inr (ne, same) ↦ elim (w.stored q l) [
          | inl e ↦ inl (ap (λ x. x.i_size) same ∙ e)
          | inr (d, sq, db) ↦ inr (d, Stores-same same sq, kept_block db)
        ]
      ];
      apart = λ q r d lq lr sq sr. elim (stored_Stores lq sq) [
        | inl (e, f) ↦ elim (stored_Stores lr sr) [
          | inl (e', f') ↦ sym e ∙ e'
          | inr (ne, old, ne') ↦ absurd (ne' f)
        ]
        | inr (ne, old, ne') ↦ elim (stored_Stores lr sr) [
          | inl (e, f) ↦ absurd (ne' f)
          | inr (ne2, old2, ne2') ↦ w.apart q r d lq lr old old2
        ]
      ];
      owner = λ d db. elim (taken-cases blocks c db.in_use) [
        | inl e ↦ (p, live, subst (Stores (update nodes p v) p) e here_Stores)
        | inr (ne, used) ↦
            let (q, l, sq) =
              w.owner d (record { valid = db.valid; in_use = used; not_root = db.not_root }) in
            (
              q,
              l,
              Stores-same
                  (update-ne nodes p v q
                    (λ e. omega (arith, sq.some_bytes, ap (λ z. (nodes z).i_size) e, empty)))
                  sq,
            )
      ];
    }
