-- ===== src/Fs/Ops/Isolation.antt =====
-- tfs_write to one file and tfs_read of another.
use so_server_and_pipes.Base.{
  ℕ, ◌+◌, ◌-◌, ◌*◌, ◌^◌, ◌≤◌, ◌<◌, ◌≡◌, refl, sym, ap, ◌∙◌, ◌≢◌, ◌⊎◌, inl, inr, false, some, List,
  arith, ltb, length, take, pos, Bool-cases, ltb→lt, length-take, update-ne, min,
}
use so_server_and_pipes.Fs.Memory.Frame.{write_bytes-Same, read_bytes-Same}
use so_server_and_pipes.Fs.Exec.{Fs, ok}
use so_server_and_pipes.Fs.Ops.{tfs_read, tfs_write}
use so_server_and_pipes.Fs.Ops.Handles.{entry, node, IsHandle, HasBlock, block_in_data}
use so_server_and_pipes.Fs.Ops.Write.{room, after_write, tfs_write-eq}
use so_server_and_pipes.Fs.Ops.Read.{bytes_at, tfs_read-eq}
use so_server_and_pipes.Fs.Ops.ReadBack.{value}

-- Ranges of different blocks do not meet.
pub blocks_apart :
    (b c size off n off' n' : ℕ)
    → b ≢ c
    → off + n ≤ size
    → off' + n' ≤ size
    → (c * size + off' + n' ≤ b * size + off) ⊎ (b * size + off + n ≤ c * size + off')
blocks_apart b c size off n off' n' apart h h' = elim (Bool-cases (ltb b c)) [
  | inl t ↦ inr (let low = block_in_data b c size off n (ltb→lt b c t) h in omega arith)
  | inr f ↦ inl (let low = block_in_data c b size off' n' (ground arith) h' in omega arith)
]

-- What a write through handle `i` to file `p` leaves of handle `j` on file `q`.
module _ {s : Fs} {i j p q c : ℕ} (b : ℕ) (bytes : List ℕ) (h : IsHandle s j q)
    (hb : HasBlock s q c) (other_handle : i ≢ j) (other_file : p ≢ q) where
  after_write-other_entry : entry (after_write s i p b bytes) j ≡ entry s j
  after_write-other_entry = update-ne s.open_file_table i _ j other_handle

  after_write-other_node : node (after_write s i p b bytes) q ≡ node s q
  after_write-other_node = update-ne s.inode_table p _ q other_file

  other-IsHandle : IsHandle (after_write s i p b bytes) j q
  other-IsHandle = record {
    in_use = h.in_use;
    open_entry = h.open_entry;
    file = ap (λ e. e.of_inumber) after_write-other_entry ∙ h.file;
    exists = h.exists;
    offset_in = omega (arith, ap (λ e. e.of_offset) after_write-other_entry, h.offset_in);
    small = h.small;
  }

  other-HasBlock : HasBlock (after_write s i p b bytes) q c
  other-HasBlock = record {
    block = ap (λ x. x.i_data_block) after_write-other_node ∙ hb.block;
    valid = hb.valid;
    sized = hb.sized;
  }

  other-bytes_at :
      (n : ℕ)
      → b ≢ c
      → (entry s i).of_offset + length bytes ≤ s.fs_params.block_size
      → (entry s j).of_offset + n ≤ s.fs_params.block_size
      → bytes_at (after_write s i p b bytes) j c n ≡ bytes_at s j c n
  other-bytes_at n apart fits fits' =
      ap (λ e. bytes_at (record (after_write s i p b bytes) { open_file_table = λ _. e }) j c n)
        after_write-other_entry
      ∙ read_bytes-Same _ s.fs_data n _ (
          write_bytes-Same s.fs_data _ bytes _ n (
            blocks_apart b c s.fs_params.block_size (entry s i).of_offset (length bytes)
              (entry s j).of_offset n apart fits fits'))

  other_read :
      (len : ℕ)
      → b ≢ c
      → (entry s i).of_offset + length bytes ≤ s.fs_params.block_size
      → s.library_mutex ≡ false
      → (entry s j).of_offset ≤ (node s q).i_size
      → (node s q).i_size ≤ s.fs_params.block_size
      → 0 < min len ((node s q).i_size - (entry s j).of_offset)
      → value (tfs_read (pos j) len (after_write s i p b bytes)) ≡ value (tfs_read (pos j) len s)
  other_read len apart fits free_mutex inside small some_bytes =
      let same_offset = ap (λ e. e.of_offset) after_write-other_entry in
      let same_size = ap (λ x. x.i_size) after_write-other_node in
      let n = min len ((node s q).i_size - (entry s j).of_offset) in
      let same : min len (
            (node (after_write s i p b bytes) q).i_size
            - (entry (after_write s i p b bytes) j).of_offset)
          ≡ n =
        omega arith in
      ap value (
        tfs_read-eq len refl other-IsHandle other-HasBlock (omega arith) (omega arith)
          (omega arith))
      ∙ ap (λ k. some (pos k, bytes_at (after_write s i p b bytes) j c k)) same
      ∙ ap (λ bs. some (pos n, bs)) (other-bytes_at n apart fits (omega arith))
      ∙ sym (ap value (tfs_read-eq len free_mutex h hb inside small some_bytes))

-- `tfs_write` of some bytes to a file that is not empty does not change what `tfs_read` returns from a
-- handle on another file, whose offset lies before its end, if the two files have different blocks.
-- All blocks together have fewer than 2 ^ 64 bytes, and one fewer than 2 ^ 63.
pub tfs_read-other_file :
    {s : Fs} {i j p q b c : ℕ} (buffer : List ℕ) (n len : ℕ)
    → s.library_mutex ≡ false
    → IsHandle s i p
    → HasBlock s p b
    → (node s p).i_size ≢ 0
    → n ≤ length buffer
    → n < 2 ^ 63
    → 0 < min n (room s i)
    → IsHandle s j q
    → HasBlock s q c
    → i ≢ j
    → p ≢ q
    → b ≢ c
    → (entry s j).of_offset ≤ (node s q).i_size
    → (node s q).i_size ≤ s.fs_params.block_size
    → 0 < min len ((node s q).i_size - (entry s j).of_offset)
    → (s' : Fs) × (tfs_write (pos i) buffer n s ≡ ok (pos (min n (room s i))) s')
      × (value (tfs_read (pos j) len s') ≡ value (tfs_read (pos j) len s))
tfs_read-other_file {s} {i} {p} {b} buffer n len free_mutex h hb ne enough small some_room h' hb'
      other_handle other_file apart inside fits some_bytes =
    let m = min n (room s i) in
    let whole = length-take m buffer (omega arith) in
    (
      after_write s i p b (take m buffer),
      tfs_write-eq buffer n free_mutex h hb ne enough small some_room,
      other_read b (take m buffer) h' hb' other_handle other_file len apart
          (omega (arith, whole, h.offset_in)) free_mutex inside fits some_bytes,
    )
