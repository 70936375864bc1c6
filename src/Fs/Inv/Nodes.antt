-- ===== src/Fs/Inv/Nodes.antt =====
-- What making, emptying, filling and deleting a file do to the table of inodes and the blocks.
use so_server_and_pipes.Base.{ℕ, ◌≡◌, sym, ap, ◌∙◌, ◌≢◌, ◌⊎◌, inl, inr, arith, update, update-ne}
use so_server_and_pipes.Base.{subst}
use so_server_and_pipes.Fs.Exec.{Params, Inode, AllocationState, taken, free}
use so_server_and_pipes.Fs.Inv.{
  taken, AllocationState, Inode, Params, IsLive, Stores, IsDataBlock, WfNodes,
}
use so_server_and_pipes.Base.{
  update-ne, inr, ◌∙◌, sym, inl, ◌⊎◌, ap, arith, ◌≢◌, update, ◌≡◌, ℕ, subst,
}
use so_server_and_pipes.Fs.Inv.Tables.{
  update-cases, Stores-same, free-cases, taken_kept, used_apart, taken-IsLive, freed-IsLive,
  IsLive-taken, IsLive-freed,
}

module _ {g : Params} {nodes : ℕ → Inode} {inodes blocks : ℕ → AllocationState} {b : ℕ}
    (w : WfNodes g nodes inodes blocks b) where
  -- A free inode becomes an empty file.
  module _ (p : ℕ) (v : Inode) (unused : inodes p ≡ free) (empty : v.i_size ≡ 0) where
    made_Stores : {q c : ℕ} → Stores (update nodes p v) q c → (p ≢ q) × Stores nodes q c
    made_Stores {q} st = elim (update-cases nodes p v q) [
      | inl (e, here) ↦ absurd (omega (arith, st.some_bytes, ap (λ x. x.i_size) here, empty))
      | inr (ne, same) ↦ (ne, Stores-same (sym same) st)
    ]

    not_root : p ≢ 0
    not_root = used_apart inodes unused w.root_in_use

    made_file :
        (q : ℕ)
        → IsLive g (update inodes p taken) q
        → ((update nodes p v q).i_size ≡ 0) ⊎ (IsLive g inodes q × (update nodes p v q ≡ nodes q))
    made_file q l = elim (update-cases nodes p v q) [
      | inl (e, here) ↦ inl (ap (λ x. x.i_size) here ∙ empty)
      | inr (ne, same) ↦ inr (IsLive-taken p ne l, same)
    ]

    pub made-WfNodes : WfNodes g (update nodes p v) (update inodes p taken) blocks b
    made-WfNodes = record {
      root_exists = w.root_exists;
      root_in_use = taken_kept inodes p w.root_in_use;
      root_node = ap (λ x. x.i_node_type) (update-ne nodes p v 0 not_root) ∙ w.root_node;
      root_block = ap (λ x. x.i_data_block) (update-ne nodes p v 0 not_root) ∙ w.root_block;
      root_valid = w.root_valid;
      root_taken = w.root_taken;
      fits = λ q l. elim (made_file q l) [
        | inl e ↦ omega (arith, e)
        | inr (l', same) ↦ omega (arith, ap (λ x. x.i_size) same, w.fits q l')
      ];
      stored = λ q l. elim (made_file q l) [
        | inl e ↦ inl e
        | inr (l', same) ↦ elim (w.stored q l') [
          | inl e ↦ inl (ap (λ x. x.i_size) same ∙ e)
          | inr (c, st, d) ↦ inr (c, Stores-same same st, d)
        ]
      ];
      apart = λ q r c lq lr sq sr.
          let (nq, sq') = made_Stores sq in
          let (nr, sr') = made_Stores sr in
          w.apart q r c (IsLive-taken p nq lq) (IsLive-taken p nr lr) sq' sr';
      owner = λ c d.
          let (q, l, st) = w.owner c d in
          (
            q,
            taken-IsLive p l,
            Stores-same (update-ne nodes p v q (used_apart inodes unused l.in_use)) st,
          );
    }

  -- An inode without bytes is freed.
  pub freed-WfNodes :
      (p : ℕ) → p ≢ 0 → (nodes p).i_size ≡ 0 → WfNodes g nodes (update inodes p free) blocks b
  freed-WfNodes p not_root empty = record {
    root_exists = w.root_exists;
    root_in_use = update-ne inodes p free 0 not_root ∙ w.root_in_use;
    root_node = w.root_node;
    root_block = w.root_block;
    root_valid = w.root_valid;
    root_taken = w.root_taken;
    fits = λ q l. w.fits q (IsLive-freed p l).1;
    stored = λ q l. w.stored q (IsLive-freed p l).1;
    apart = λ q r c lq lr. w.apart q r c (IsLive-freed p lq).1 (IsLive-freed p lr).1;
    owner = λ c d.
        let (q, l, st) = w.owner c d in
        (
          q,
          freed-IsLive p (λ e. omega (arith, st.some_bytes, ap (λ z. (nodes z).i_size) e, empty)) l,
          st,
        );
  }

  module _ {p c : ℕ} (live : IsLive g inodes p) (st : Stores nodes p c) where
    pub data_block : IsDataBlock g blocks b c
    data_block = elim (w.stored p live) [
      | inl e ↦ absurd (omega (arith, e, st.some_bytes))
      | inr (d, st', db) ↦
          let sp = st.block in
          let sp' = st'.block in let same : d ≡ c = cc in subst (IsDataBlock g blocks b) same db
    ]

    freed_block :
        {d : ℕ} → c ≢ d → IsDataBlock g blocks b d → IsDataBlock g (update blocks c free) b d
    freed_block {d} ne db = record {
      valid = db.valid;
      in_use = update-ne blocks c free d ne ∙ db.in_use;
      not_root = db.not_root;
    }

    -- A block that stays allocated has its owner, which is another file.
    pub other_owner :
        (d : ℕ)
        → IsDataBlock g (update blocks c free) b d
        → (q : ℕ) × IsLive g inodes q × Stores nodes q d × (p ≢ q)
    other_owner d db =
        let (ne, used) = free-cases blocks c db.in_use in
        let (q, l, sq) =
          w.owner d (record { valid = db.valid; in_use = used; not_root = db.not_root }) in
        (
          q,
          l,
          sq,
          λ e.
              let sp = st.block in
              let sq' = sq.block in let same = ap (λ z. (nodes z).i_data_block) e in ne cc,
        )

    pub other_block :
        (q : ℕ)
        → IsLive g inodes q
        → p ≢ q
        → ((nodes q).i_size ≡ 0)
          ⊎ ((d : ℕ) × Stores nodes q d × IsDataBlock g (update blocks c free) b d)
    other_block q l ne = elim (w.stored q l) [
      | inl e ↦ inl e
      | inr (d, sq, db) ↦
          inr (
            d,
            sq,
            freed_block (λ e. ne (w.apart p q d live l (subst (Stores nodes p) e st) sq)) db,
          )
    ]

    -- An inode with bytes is freed, and its block with it.
    pub deleted-WfNodes : WfNodes g nodes (update inodes p free) (update blocks c free) b
    deleted-WfNodes = record {
      root_exists = w.root_exists;
      root_in_use = update-ne inodes p free 0 live.not_root ∙ w.root_in_use;
      root_node = w.root_node;
      root_block = w.root_block;
      root_valid = w.root_valid;
      root_taken = update-ne blocks c free b (λ e. data_block.not_root (sym e)) ∙ w.root_taken;
      fits = λ q l. w.fits q (IsLive-freed p l).1;
      stored = λ q l. let (ne, l') = IsLive-freed p l in other_block q l' ne;
      apart = λ q r d lq lr. w.apart q r d (IsLive-freed p lq).1 (IsLive-freed p lr).1;
      owner = λ d db. let (q, l, sq, ne) = other_owner d db in (q, freed-IsLive p ne l, sq);
    }
