-- ===== src/Fs/Ops/PastEnd.antt =====
-- tfs_read behind the end of a file, which a truncation through another handle leaves possible.
use so_server_and_pipes.Base.{ℕ, ◌+◌, ◌*◌, ◌^◌, ◌≤◌, ◌<◌, ◌≡◌, false, arith, pos, lt→ltb}
use so_server_and_pipes.Fs.Exec.{data_size, Fs, ok}
use so_server_and_pipes.Fs.Ops.{clip_read, read_entry, tfs_read}
use so_server_and_pipes.Fs.Ops.Handles.{
  entry, node, IsHandle, HasBlock, get_open_file_entry-ok, inode_get-ok, held-IsHandle,
  held-HasBlock,
}
use so_server_and_pipes.Fs.Ops.Read.{bytes_at, after_read, read_some-eq}

-- The subtraction of the larger offset from the size wraps, and bounds nothing.
clip_read-past :
    (size offset len : ℕ)
    → size < offset
    → offset < 2 ^ 63
    → len < 2 ^ 63
    → clip_read size offset len ≡ len
unfolding clip_read
clip_read-past size offset len past ho hl = ground arith

read_entry-past :
    {s : Fs} {i p b : ℕ} (len : ℕ)
    → IsHandle s i p
    → HasBlock s p b
    → (node s p).i_size < (entry s i).of_offset
    → 0 < len
    → (entry s i).of_offset + len < 2 ^ 63
    → b * s.fs_params.block_size + (entry s i).of_offset + len ≤ data_size s
    → read_entry i len s ≡ ok (pos len, bytes_at s i b len) (after_read s i len)
unfolding read_entry
read_entry-past {s} {i} {p} len h hb past some_bytes small in_data =
    rw
      (
        inode_get-ok h,
        clip_read-past (node s p).i_size (entry s i).of_offset len past (omega arith) (omega arith),
        lt→ltb 0 _ some_bytes,
      )
      (read_some-eq h hb len small in_data)

-- With the offset of the handle behind the end of the file, `tfs_read` returns as many bytes as it
-- is asked for, none of them the file's: it reads on in the memory behind the offset. All blocks
-- together have fewer than 2 ^ 64 bytes, and one fewer than 2 ^ 63.
pub tfs_read-past_end :
    {s : Fs} {i p b : ℕ} (len : ℕ)
    → s.library_mutex ≡ false
    → IsHandle s i p
    → HasBlock s p b
    → (node s p).i_size < (entry s i).of_offset
    → 0 < len
    → (entry s i).of_offset + len < 2 ^ 63
    → b * s.fs_params.block_size + (entry s i).of_offset + len ≤ data_size s
    → tfs_read (pos i) len s ≡ ok (pos len, bytes_at s i b len) (after_read s i len)
unfolding tfs_read
tfs_read-past_end len free_mutex h hb past some_bytes small in_data =
    rw (free_mutex, get_open_file_entry-ok (held-IsHandle h))
      (read_entry-past len (held-IsHandle h) (held-HasBlock hb) past some_bytes small in_data)
