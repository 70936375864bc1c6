-- ===== src/Fs/Ops/Read.antt =====
-- tfs_read: what it returns, and what is read after a write.
use so_server_and_pipes.Base.{
  add_size, ℕ, ◌+◌, ◌-◌, ◌*◌, ◌^◌, ◌≤◌, ◌<◌, ◌≡◌, ap, ◌∙◌, false, List, arith, update, pos, lt→ltb,
  ssize_of_size-pos, min,
}
use so_server_and_pipes.Fs.Memory.{read_bytes}
use so_server_and_pipes.Fs.Exec.{data_size, Fs, ok}
use so_server_and_pipes.Fs.Ops.{clip_read, read_some, read_entry, tfs_read}
use so_server_and_pipes.Fs.Ops.Handles.{
  entry, node, IsHandle, HasBlock, HasBlock-in_data, get_open_file_entry-ok, inode_get-ok,
  data_block_get-ok, memcpy_out-ok, held-IsHandle, held-HasBlock,
}

-- The state after `n` bytes are read through handle `i`.
abbrev pub after_read : Fs → ℕ → ℕ → Fs
after_read s i n = record s {
  open_file_table =
      update s.open_file_table i (record (entry s i) { of_offset = (entry s i).of_offset + n });
  library_mutex = false;
}

-- The `n` bytes behind the offset of handle `i`, in block `b`.
abbrev pub bytes_at : Fs → ℕ → ℕ → ℕ → List ℕ
bytes_at s i b n = read_bytes s.fs_data (b * s.fs_params.block_size + (entry s i).of_offset) n

pub clip_read-eq :
    (size offset len : ℕ)
    → offset ≤ size
    → size < 2 ^ 63
    → clip_read size offset len ≡ min len (size - offset)
unfolding clip_read
clip_read-eq size offset len ho hs = ground arith

add_size-small : (a b : ℕ) → a + b < 2 ^ 63 → add_size a b ≡ a + b
add_size-small a b h = omega arith

module _ {s : Fs} {i p b : ℕ} (h : IsHandle s i p) (hb : HasBlock s p b) where
  pub read_some-eq :
      (n : ℕ)
      → (entry s i).of_offset + n < 2 ^ 63
      → b * s.fs_params.block_size + (entry s i).of_offset + n ≤ data_size s
      → read_some i p n s ≡ ok (pos n, bytes_at s i b n) (after_read s i n)
  unfolding read_some
  read_some-eq n small in_data = rw (
    data_block_get-ok hb,
    memcpy_out-ok s (b * s.fs_params.block_size + (entry s i).of_offset) n in_data,
    ssize_of_size-pos n (omega arith),
    add_size-small (entry s i).of_offset n small,
  )

  read_entry-eq :
      (len : ℕ)
      → (entry s i).of_offset ≤ (node s p).i_size
      → (node s p).i_size ≤ s.fs_params.block_size
      → 0 < min len ((node s p).i_size - (entry s i).of_offset)
      → let n = min len ((node s p).i_size - (entry s i).of_offset) in
        read_entry i len s ≡ ok (pos n, bytes_at s i b n) (after_read s i n)
  unfolding read_entry
  read_entry-eq len inside fits some_bytes =
      let n = min len ((node s p).i_size - (entry s i).of_offset) in
      rw
        (
          inode_get-ok h,
          clip_read-eq (node s p).i_size (entry s i).of_offset len inside (omega (arith, h.small)),
          lt→ltb 0 _ some_bytes,
        )
        (read_some-eq n (omega (arith, h.small))
          (HasBlock-in_data (entry s i).of_offset n hb (omega arith)))

-- `tfs_read` through an open handle, whose offset lies before the end of the file, returns the bytes
-- from the offset on, as many as asked for or to the end of the file, and moves the offset behind
-- them; nothing else changes.
pub tfs_read-eq :
    {s : Fs} {i p b : ℕ} (len : ℕ)
    → s.library_mutex ≡ false
    → IsHandle s i p
    → HasBlock s p b
    → (entry s i).of_offset ≤ (node s p).i_size
    → (node s p).i_size ≤ s.fs_params.block_size
    → 0 < min len ((node s p).i_size - (entry s i).of_offset)
    → let n = min len ((node s p).i_size - (entry s i).of_offset) in
      tfs_read (pos i) len s ≡ ok (pos n, bytes_at s i b n) (after_read s i n)
unfolding tfs_read
tfs_read-eq len free_mutex h hb inside fits some_bytes =
    rw (free_mutex, get_open_file_entry-ok (held-IsHandle h))
      (read_entry-eq (held-IsHandle h) (held-HasBlock hb) len inside fits some_bytes)

-- As many bytes as the file has behind the offset are all returned.
pub tfs_read-all :
    {s : Fs} {i p b : ℕ} (len : ℕ)
    → s.library_mutex ≡ false
    → IsHandle s i p
    → HasBlock s p b
    → (entry s i).of_offset + len ≤ (node s p).i_size
    → (node s p).i_size ≤ s.fs_params.block_size
    → 0 < len
    → tfs_read (pos i) len s ≡ ok (pos len, bytes_at s i b len) (after_read s i len)
tfs_read-all {s} {i} {p} {b} len free_mutex h hb inside fits some_bytes =
    let all : min len ((node s p).i_size - (entry s i).of_offset) ≡ len = omega arith in
    tfs_read-eq len free_mutex h hb (omega arith) fits (omega arith)
    ∙ ap (λ n. ok (pos n, bytes_at s i b n) (after_read s i n)) all
