-- ===== src/Fs/Inv/Write.antt =====
-- tfs_write returns and keeps the invariant.
use so_server_and_pipes.Base.{
  ℕ, ◌+◌, ◌*◌, ◌^◌, ◌≤◌, ◌<◌, ◌≡◌, refl, sym, ap, ◌∙◌, ◌≢◌, inl, inr, false, List, arith, length,
  take, update, ℤ, pos, minus_one, Option-cases, length-take, update_self, min,
}
use so_server_and_pipes.Base.{subst, find_below-some}
use native.Mathlib.Decide.{dec_lt}
use so_server_and_pipes.Fs.Exec.{
  Fs, Params, Inode, OpenFileEntry, AllocationState, taken, free, is_free, ok,
}
use so_server_and_pipes.Fs.Memory.{Bytes, write_bytes}
use so_server_and_pipes.Fs.Memory.Frame.{write_bytes-Same}
use so_server_and_pipes.Fs.Ops.{tfs_write}
use so_server_and_pipes.Fs.Ops.Handles.{IsHandle, node, entry}
use so_server_and_pipes.Fs.Ops.Isolation.{blocks_apart}
use so_server_and_pipes.Fs.Ops.Write.{room, grown, after_write, tfs_write-eq}
use so_server_and_pipes.Fs.Ops.WriteNew.{
  with_block, first_free, tfs_write-new, tfs_write-full, tfs_write-nothing,
}
use so_server_and_pipes.Fs.Ops.Close.{operations-no_handle}
use so_server_and_pipes.Fs.Inv.{Good, Inv, IsOpenOn, Stores, IsDataBlock, WfNodes}
use so_server_and_pipes.Fs.Inv.Tables.{used_apart, update-update, is_free-free}
use so_server_and_pipes.Fs.Inv.Blocks.{grown-WfNodes, stored-WfNodes}
use so_server_and_pipes.Fs.Inv.Frame.{kept-WfNames}
use so_server_and_pipes.Fs.Inv.Handles.{grown-WfHandles, moved-WfHandles}
use so_server_and_pipes.Fs.Inv.Returns.{Returns, find-IsHandle, file-cases}

-- Bytes go into block `c` of file `p`, which gets a size that reaches behind them; the handle moves.
pub written-Inv :
    {g : Params} {nodes : ℕ → Inode} {inodes : ℕ → AllocationState} {m : Bytes}
    {blocks : ℕ → AllocationState} {entries : ℕ → OpenFileEntry} {handles : ℕ → AllocationState}
    {b : ℕ} (blocks' : ℕ → AllocationState) (v : Inode) (i p c : ℕ) (bytes : List ℕ)
    → Inv g nodes inodes m blocks entries handles b
    → IsOpenOn g nodes inodes (entries i) p
    → WfNodes g (update nodes p v) inodes blocks' b
    → b ≢ c
    → (nodes p).i_size ≤ v.i_size
    → (entries i).of_offset + length bytes ≤ v.i_size
    → (entries i).of_offset + length bytes ≤ g.block_size
    → Inv g
        (update nodes p v)
        inodes
        (write_bytes m (c * g.block_size + (entries i).of_offset) bytes)
        blocks'
        (update entries i (record (entries i) { of_offset = (entries i).of_offset + length bytes }))
        handles
        b
written-Inv {g} {nodes} {m} {entries} {b} blocks' v i p c bytes h o w ne le inside fits = record {
  geometry = h.geometry;
  nodes_ok = w;
  names_ok =
      kept-WfNames g b
        (write_bytes-Same m _ bytes _ _ (
          omega (
            arith,
            blocks_apart c b g.block_size (entries i).of_offset (length bytes) 0 g.block_size
                (λ e. ne (sym e)) fits (omega arith),
          )))
        h.names_ok;
  handles_ok = moved-WfHandles (grown-WfHandles h.handles_ok p v le) i p _ (record {
    live = o.live;
    file = o.file;
    inside = omega (arith, inside, ap (λ x. x.i_size) (update_self nodes p v));
  });
}

grown-lem :
    (size end : ℕ)
    → (size ≤ grown size end)
      × (end ≤ grown size end)
      × ((cap : ℕ) → size ≤ cap → end ≤ cap → grown size end ≤ cap)
grown-lem size end = (ground arith, ground arith, λ cap h h'. ground arith)

-- The inode of a file after a write that ends at `stop`.
abbrev larger : Inode → ℕ → Inode
larger nd stop = record nd { i_size = grown nd.i_size stop }

module _ (s : Fs) {b : ℕ} (g : Good s b) {i p : ℕ} (bytes : List ℕ)
    (o : IsOpenOn s.fs_params s.inode_table s.freeinode_ts (entry s i) p)
    (some_bytes : 0 < length bytes)
    (fits : (entry s i).of_offset + length bytes ≤ s.fs_params.block_size) where
  after_write-Good :
      {c : ℕ}
      → Stores s.inode_table p c
      → IsDataBlock s.fs_params s.free_blocks b c
      → Good (after_write s i p c bytes) b
  after_write-Good {c} st db =
      let stop = (entry s i).of_offset + length bytes in
      let (le, inside, cap) = grown-lem (node s p).i_size stop in
      let small = cap s.fs_params.block_size (g.nodes_ok.fits p o.live) fits in
      let v = larger (node s p) stop in
      written-Inv s.free_blocks v i p c bytes g o
        (grown-WfNodes g.nodes_ok o.live st v (omega (arith, le, st.some_bytes)) small st.block)
        db.not_root le inside fits

  after_write_new-Good :
      {c : ℕ}
      → (node s p).i_size ≡ 0
      → s.free_blocks c ≡ free
      → c < s.fs_params.max_block_count
      → Good (after_write (with_block s p c) i p c bytes) b
  after_write_new-Good {c} empty unused valid =
      let stop = (entry s i).of_offset + length bytes in
      let (le, inside, cap) = grown-lem (node s p).i_size stop in
      let nd = record (node s p) { i_data_block = pos c } in
      let small = cap s.fs_params.block_size (g.nodes_ok.fits p o.live) fits in
      subst
        (λ (t : ℕ → Inode).
          Good (record (after_write (with_block s p c) i p c bytes) { inode_table = t }) b)
        (sym (
          update-update s.inode_table p nd _
          ∙ ap (λ (x : Inode). update s.inode_table p (larger x stop))
              (update_self s.inode_table p nd)))
        (written-Inv (update s.free_blocks c taken) (larger nd stop) i p c bytes g o
          (stored-WfNodes g.nodes_ok o.live empty unused valid (larger nd stop)
            (omega (arith, inside, some_bytes)) small refl)
          (λ e. used_apart s.free_blocks unused g.nodes_ok.root_taken (sym e)) le inside fits)

  -- `tfs_write` to an open file returns, and keeps the invariant.
  tfs_write_some-Returns :
      (buffer : List ℕ) (n : ℕ)
      → s.library_mutex ≡ false
      → IsHandle s i p
      → n ≤ length buffer
      → n < 2 ^ 63
      → 0 < min n (room s i)
      → bytes ≡ take (min n (room s i)) buffer
      → Returns b (tfs_write (pos i) buffer n s)
  tfs_write_some-Returns buffer n free_mutex h enough small positive same =
      elim (file-cases s g p o.live) [
        | inr (c, st, hb, db) ↦ (
          pos (min n (room s i)),
          after_write s i p c bytes,
          tfs_write-eq buffer n free_mutex h hb (λ e. omega (arith, e, st.some_bytes)) enough small
                positive
              ∙ ap (λ (l : List ℕ). ok (pos (min n (room s i))) (after_write s i p c l)) (sym same),
          refl,
          after_write-Good st db,
        )
        | inl e ↦ elim (Option-cases (first_free s)) [
          | inl full ↦ (
            minus_one,
            s,
            tfs_write-full buffer n free_mutex h small e full positive,
            free_mutex,
            g,
          )
          | inr (c, found) ↦
              let first = find_below-some (λ j. is_free (s.free_blocks j)) _ c found in
              (
                pos (min n (room s i)),
                after_write (with_block s p c) i p c bytes,
                tfs_write-new buffer n free_mutex h small c e found g.geometry.few_blocks
                      g.geometry.small_data enough positive
                    ∙ ap
                        (λ (l : List ℕ).
                          ok (pos (min n (room s i))) (after_write (with_block s p c) i p c l))
                        (sym same),
                refl,
                after_write_new-Good e (is_free-free _ first.passes) first.below,
              )
        ]
      ]

-- `tfs_write` returns and keeps the invariant, whatever number it is given for a handle.
pub tfs_write-Returns :
    (s : Fs) {b : ℕ} (fhandle : ℤ) (buffer : List ℕ) (n : ℕ)
    → s.library_mutex ≡ false
    → Good s b
    → n ≤ length buffer
    → n < 2 ^ 63
    → Returns b (tfs_write fhandle buffer n s)
tfs_write-Returns s {b} fhandle buffer n free_mutex g enough small =
    elim (find-IsHandle s g fhandle) [
      | inl bad ↦
          (minus_one, s, (operations-no_handle s fhandle buffer n free_mutex bad).1, free_mutex, g)
      | inr (i, p, e, h, o) ↦
          subst (λ f. Returns b (tfs_write f buffer n s)) (sym e)
            (elim (dec_lt 0 (min n (room s i))) [
              | yes positive ↦
                  let whole = length-take (min n (room s i)) buffer (omega arith) in
                  tfs_write_some-Returns s g (take (min n (room s i)) buffer) o
                    (omega (arith, whole)) (omega (arith, whole, h.offset_in)) buffer n free_mutex h
                    enough small positive refl
              | no none_left ↦ (
                pos 0,
                s,
                tfs_write-nothing buffer n free_mutex h small (omega arith),
                free_mutex,
                g,
              )
            ])
    ]
