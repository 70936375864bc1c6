-- ===== src/Fs/View/Read.antt =====
-- tfs_read as an operation on the map from names to bytes.
use so_server_and_pipes.Base.{
  ℕ, ◌+◌, ◌-◌, ◌*◌, ◌≡◌, refl, sym, ap, ◌∙◌, inl, inr, false, some, List, [], arith, length, take,
  pos, update_self, min,
}
use so_server_and_pipes.Base.{subst}
use native.Mathlib.Decide.{dec_lt}
use so_server_and_pipes.Fs.Exec.{Fs, OpenFileEntry, ok, index}
use so_server_and_pipes.Fs.Memory.{read_bytes}
use so_server_and_pipes.Fs.Ops.{tfs_read}
use so_server_and_pipes.Fs.Ops.Handles.{IsHandle, node, entry}
use so_server_and_pipes.Fs.Ops.Read.{bytes_at, after_read, tfs_read-eq}
use so_server_and_pipes.Fs.Ops.Append.{tfs_read-none}
use so_server_and_pipes.Fs.Inv.{Good, IsOpenOn}
use so_server_and_pipes.Fs.Inv.Returns.{Good-IsHandle, file-cases}
use so_server_and_pipes.Fs.View.{file_bytes, contents, bytes_of, drop}
use so_server_and_pipes.Fs.View.Overwrite.{take-read_bytes-min, drop-read_bytes, length-read_bytes}
use so_server_and_pipes.Fs.View.Frame.{inode_bytes-block}
use so_server_and_pipes.Fs.View.Refine.{some-inj, IsOpenAs}

module _ (s : Fs) {b : ℕ} (g : Good s b) (i p : ℕ) (h : IsHandle s i p)
    (o : IsOpenOn s.fs_params s.inode_table s.freeinode_ts (entry s i) p)
    (free_mutex : s.library_mutex ≡ false) (len : ℕ) where
  -- The bytes that are to be read are those that `tfs_read` returns.
  rest_of_file :
      (c : ℕ)
      → (node s p).i_data_block ≡ pos c
      → take len (drop (entry s i).of_offset (file_bytes s p))
        ≡ bytes_at s i c (min len ((node s p).i_size - (entry s i).of_offset))
  rest_of_file c block =
      ap (λ (l : List ℕ). take len (drop (entry s i).of_offset l))
        (inode_bytes-block s.fs_data s.fs_params.block_size c (node s p) block)
      ∙ ap (take len) (
          drop-read_bytes s.fs_data (c * s.fs_params.block_size) (entry s i).of_offset
            (node s p).i_size)
      ∙ take-read_bytes-min s.fs_data _ len _

  nothing_left :
      min len ((node s p).i_size - (entry s i).of_offset) ≡ 0
      → take len (drop (entry s i).of_offset (file_bytes s p)) ≡ []
  nothing_left nothing =
      ap (take len) (
        drop-read_bytes s.fs_data (index (node s p).i_data_block * s.fs_params.block_size)
          (entry s i).of_offset (node s p).i_size)
      ∙ take-read_bytes-min s.fs_data _ len _
      ∙ ap (read_bytes s.fs_data _) nothing

  read_any :
      let bytes = take len (drop (entry s i).of_offset (file_bytes s p)) in
      (s' : Fs) × (tfs_read (pos i) len s ≡ ok (pos (length bytes), bytes) s')
      × ((entry s' i).of_offset ≡ (entry s i).of_offset + length bytes)
      × ((t : List ℕ) → contents s' b t ≡ contents s b t)
  read_any =
      let n = min len ((node s p).i_size - (entry s i).of_offset) in
      elim (dec_lt 0 n) [
        | yes positive ↦ elim (file-cases s g p o.live) [
          | inl e ↦ absurd (omega (arith, e, positive))
          | inr (c, st, hb, db) ↦
              let same = rest_of_file c st.block in
              let size = ap length same ∙ length-read_bytes s.fs_data _ n in
              (
                after_read s i n,
                tfs_read-eq len free_mutex h hb o.inside (g.nodes_ok.fits p o.live) positive
                    ∙ ap (λ (l : List ℕ). ok (pos n, l) (after_read s i n)) (sym same)
                    ∙ ap
                        (λ (k : ℕ).
                          ok (pos k, take len (drop (entry s i).of_offset (file_bytes s p)))
                            (after_read s i n))
                        (sym size),
                ap (λ (e : OpenFileEntry). e.of_offset)
                      (update_self s.open_file_table i
                        (record (entry s i) { of_offset = (entry s i).of_offset + n }))
                    ∙ ap (λ (k : ℕ). (entry s i).of_offset + k) (sym size),
                λ t. refl,
              )
        ]
        | no none_left ↦
            let nothing = nothing_left (omega arith) in
            (
              record s { library_mutex = false },
              tfs_read-none len free_mutex h o.inside
                    (omega (arith, g.nodes_ok.fits p o.live, h.small)) (omega arith)
                  ∙ ap (λ (l : List ℕ). ok (pos (length l), l) (record s { library_mutex = false }))
                      (sym nothing),
              omega (arith, ap length nothing),
              λ t. refl,
            )
      ]

-- `tfs_read` through a handle that is open on the file of name `n`, which stands for the bytes
-- `old`, returns at most `len` of the bytes from the offset on, and moves the offset behind them.
-- Every name stands for what it stood for.
pub contents-tfs_read :
    (s : Fs) {b : ℕ} (n : List ℕ) (i len : ℕ) (old : List ℕ)
    → s.library_mutex ≡ false
    → Good s b
    → IsOpenAs s b i n
    → contents s b n ≡ some old
    → let bytes = take len (drop (entry s i).of_offset old) in
      (s' : Fs) × (tfs_read (pos i) len s ≡ ok (pos (length bytes), bytes) s')
      × ((entry s' i).of_offset ≡ (entry s i).of_offset + length bytes)
      × ((t : List ℕ) → contents s' b t ≡ contents s b t)
contents-tfs_read s {b} n i len old free_mutex g h shown =
    let (p, o) = g.handles_ok.opened i h.in_use h.open_entry in
    let whole : file_bytes s p ≡ old = some-inj (sym (ap (bytes_of s) (h.file ∙ o.file)) ∙ shown) in
    subst
      (λ (l : List ℕ).
        let bytes = take len (drop (entry s i).of_offset l) in
        (s' : Fs) × (tfs_read (pos i) len s ≡ ok (pos (length bytes), bytes) s')
        × ((entry s' i).of_offset ≡ (entry s i).of_offset + length bytes)
        × ((t : List ℕ) → contents s' b t ≡ contents s b t))
      whole (read_any s g i p (Good-IsHandle s g h.in_use h.open_entry o) o free_mutex len)
