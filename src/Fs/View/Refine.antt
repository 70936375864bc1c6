-- ===== src/Fs/View/Refine.antt =====
-- tfs_write as an operation on the map from names to bytes.
use so_server_and_pipes.Base.{
  ℕ, ◌+◌, ◌^◌, ◌≤◌, ◌<◌, ◌≡◌, refl, sym, ap, ◌∙◌, ◌≢◌, ◌⊎◌, inl, inr, false, Option, some, List, [],
  arith, length, take, pos, length-take, update_self, min,
}
use so_server_and_pipes.Base.{subst, find_below-some}
use native.Mathlib.Decide.{dec_lt}
use so_server_and_pipes.Fs.Exec.{Fs, OpenFileEntry, taken, is_free, ok}
use so_server_and_pipes.Fs.Dir.Entries.{IsName}
use so_server_and_pipes.Fs.Ops.{tfs_write}
use so_server_and_pipes.Fs.Ops.Handles.{IsHandle, node, entry}
use so_server_and_pipes.Fs.Ops.Paths.{root_value}
use so_server_and_pipes.Fs.Ops.Write.{room, after_write, tfs_write-eq}
use so_server_and_pipes.Fs.Ops.WriteNew.{with_block, first_free, tfs_write-new, tfs_write-nothing}
use so_server_and_pipes.Fs.Inv.{Good, IsOpenOn}
use so_server_and_pipes.Fs.Inv.Tables.{is_free-free}
use so_server_and_pipes.Fs.Inv.Returns.{Good-IsHandle, file-cases}
use so_server_and_pipes.Fs.View.{file_bytes, contents, overwrite, bytes_of}
use so_server_and_pipes.Fs.View.Overwrite.{overwrite-nothing}
use so_server_and_pipes.Fs.View.Frame.{inode_bytes-empty}
use so_server_and_pipes.Fs.View.Write.{IsChanged, after_write-IsChanged, after_write_new-IsChanged}

-- Entry `i` of the open file table is open on the file that name `n` leads to.
pub record IsOpenAs (s : Fs) (b i : ℕ) (n : List ℕ) : Type 0 where
  pub in_use : i < s.fs_params.max_open_files_count
  pub open_entry : s.free_open_file_entries i ≡ taken
  pub file : root_value s b n ≡ (entry s i).of_inumber

pub some-inj : {xs ys : List ℕ} → some xs ≡ some ys → xs ≡ ys
some-inj e = cc

-- Nothing changes.
unchanged-IsChanged :
    (s : Fs) {b : ℕ} (n : List ℕ) (new : Option (List ℕ))
    → contents s b n ≡ new
    → IsChanged s s b n new
unchanged-IsChanged s n new e = record { changed = e; others = λ t ht other. refl }

module _ (s : Fs) {b : ℕ} (g : Good s b) (i p : ℕ) (h : IsHandle s i p)
    (o : IsOpenOn s.fs_params s.inode_table s.freeinode_ts (entry s i) p) (n : List ℕ)
    (name : IsName n) (here : root_value s b n ≡ pos p) (free_mutex : s.library_mutex ≡ false) where
  -- A write through entry `i`, of which `w` bytes are to be written.
  write_open :
      (buffer : List ℕ) (k : ℕ)
      → ((file_bytes s p ≢ []) ⊎ ((c : ℕ) × (first_free s ≡ some c)))
      → k ≤ length buffer
      → k < 2 ^ 63
      → 0 < min k (room s i)
      → (s' : Fs) × (tfs_write (pos i) buffer k s ≡ ok (pos (min k (room s i))) s')
        × ((entry s' i).of_offset ≡ (entry s i).of_offset + min k (room s i))
        × IsChanged s s' b n (
            some
              (overwrite (file_bytes s p) (entry s i).of_offset (take (min k (room s i)) buffer)))
  write_open buffer k space enough small positive =
      let w = min k (room s i) in
      let bytes = take w buffer in
      let whole = length-take w buffer (omega arith) in
      let fits : (entry s i).of_offset + length bytes ≤ s.fs_params.block_size =
        omega (arith, whole, h.offset_in) in
      let moved =
        ap (λ (e : OpenFileEntry). e.of_offset)
          (update_self s.open_file_table i
            (record (entry s i) { of_offset = (entry s i).of_offset + length bytes }))
        ∙ ap (λ (l : ℕ). (entry s i).of_offset + l) whole in
      elim (file-cases s g p o.live) [
        | inr (c, st, hb, db) ↦ (
          after_write s i p c bytes,
          tfs_write-eq buffer k free_mutex h hb (λ e. omega (arith, e, st.some_bytes)) enough small
              positive,
          moved,
          after_write-IsChanged s g bytes o fits n name here st db,
        )
        | inl e ↦
            let (c, found) = a_block e space in
            let first = find_below-some (λ j. is_free (s.free_blocks j)) _ c found in
            (
              after_write (with_block s p c) i p c bytes,
              tfs_write-new buffer k free_mutex h small c e found g.geometry.few_blocks
                  g.geometry.small_data enough positive,
              moved,
              after_write_new-IsChanged s g bytes o fits n name here e
                  (is_free-free _ first.passes),
            )
      ]
    where
      a_block :
          (node s p).i_size ≡ 0
          → (file_bytes s p ≢ []) ⊎ ((c : ℕ) × (first_free s ≡ some c))
          → (c : ℕ) × (first_free s ≡ some c)
      a_block e (inl bytes) =
          absurd (bytes (inode_bytes-empty s.fs_data s.fs_params.block_size (node s p) e))
      a_block e (inr found) = found

  -- Or none.
  write_any :
      (buffer : List ℕ) (k : ℕ)
      → ((file_bytes s p ≢ []) ⊎ ((c : ℕ) × (first_free s ≡ some c)))
      → k ≤ length buffer
      → k < 2 ^ 63
      → (s' : Fs) × (tfs_write (pos i) buffer k s ≡ ok (pos (min k (room s i))) s')
        × ((entry s' i).of_offset ≡ (entry s i).of_offset + min k (room s i))
        × IsChanged s s' b n (
            some
              (overwrite (file_bytes s p) (entry s i).of_offset (take (min k (room s i)) buffer)))
  write_any buffer k space enough small = elim (dec_lt 0 (min k (room s i))) [
    | yes positive ↦ write_open buffer k space enough small positive
    | no none_left ↦
        let nothing : min k (room s i) ≡ 0 = omega arith in
        (
          s,
          tfs_write-nothing buffer k free_mutex h small nothing
              ∙ ap (λ (w : ℕ). ok (pos w) s) (sym nothing),
          omega (arith, nothing),
          unchanged-IsChanged s n _ (
              ap (bytes_of s) here
              ∙ ap some (
                  sym (
                    ap (λ (w : ℕ). overwrite (file_bytes s p) (entry s i).of_offset (take w buffer))
                      nothing
                    ∙ overwrite-nothing (file_bytes s p) (entry s i).of_offset))),
        )
  ]

-- `tfs_write` through a handle that is open on the file of name `n`, which stands for the bytes
-- `old`, where the file is not empty or a block is free: as many bytes as fit into the block behind
-- the offset come in place of those from the offset on, or behind them; `tfs_write` returns their
-- number and moves the offset behind them. Every other name stands for what it stood for.
pub contents-tfs_write :
    (s : Fs) {b : ℕ} (n : List ℕ) (i : ℕ) (buffer : List ℕ) (k : ℕ) (old : List ℕ)
    → s.library_mutex ≡ false
    → Good s b
    → IsName n
    → IsOpenAs s b i n
    → contents s b n ≡ some old
    → ((old ≢ []) ⊎ ((c : ℕ) × (first_free s ≡ some c)))
    → k ≤ length buffer
    → k < 2 ^ 63
    → (s' : Fs) × (tfs_write (pos i) buffer k s ≡ ok (pos (min k (room s i))) s')
      × ((entry s' i).of_offset ≡ (entry s i).of_offset + min k (room s i))
      × IsChanged s s' b n
          (some (overwrite old (entry s i).of_offset (take (min k (room s i)) buffer)))
contents-tfs_write s {b} n i buffer k old free_mutex g name h shown space enough small =
    let (p, o) = g.handles_ok.opened i h.in_use h.open_entry in
    let here = h.file ∙ o.file in
    let whole : file_bytes s p ≡ old = some-inj (sym (ap (bytes_of s) here) ∙ shown) in
    subst
      (λ (l : List ℕ).
        ((l ≢ []) ⊎ ((c : ℕ) × (first_free s ≡ some c)))
        → (s' : Fs) × (tfs_write (pos i) buffer k s ≡ ok (pos (min k (room s i))) s')
          × ((entry s' i).of_offset ≡ (entry s i).of_offset + min k (room s i))
          × IsChanged s s' b n
              (some (overwrite l (entry s i).of_offset (take (min k (room s i)) buffer))))
      whole
      (λ space'.
        write_any s g i p (Good-IsHandle s g h.in_use h.open_entry o) o n name here free_mutex
          buffer k space' enough small)
      space
