-- ===== src/Fs/Ops/Write.antt =====
-- tfs_write: how many bytes it writes, where, and what it leaves alone.
use so_server_and_pipes.Base.{
  add_size, ℕ, ◌+◌, ◌-◌, ◌*◌, ◌^◌, ◌≤◌, ◌<◌, ◌≡◌, ◌≢◌, false, List, arith, ltb, if◌then◌else◌,
  length, take, update, pos, ne→==, lt→ltb, length-take, ssize_of_size-pos, min,
}
use so_server_and_pipes.Fs.Memory.{write_bytes}
use so_server_and_pipes.Fs.Exec.{Fs, ok, Inode}
use so_server_and_pipes.Fs.Ops.{
  clip_write, provide_block, write_block, write_some, write_entry, tfs_write,
}
use so_server_and_pipes.Fs.Ops.Handles.{
  entry, node, IsHandle, HasBlock, HasBlock-in_data, get_open_file_entry-ok, inode_get-ok,
  data_block_get-ok, memcpy_in-ok, held-IsHandle, held-HasBlock, locked-free,
}

-- The bytes that fit between the offset of handle `i` and the end of the block.
abbrev pub room : Fs → ℕ → ℕ
room s i = s.fs_params.block_size - (entry s i).of_offset

-- The size of a file of size `size` after a write that ends at offset `end`.
abbrev pub grown : ℕ → ℕ → ℕ
grown size end = if ltb size end then end else size

-- The state after `bytes` are written through handle `i` into block `b` of inode `p`.
abbrev pub after_write : Fs → ℕ → ℕ → ℕ → List ℕ → Fs
after_write s i p b bytes = record s {
  fs_data = write_bytes s.fs_data (b * s.fs_params.block_size + (entry s i).of_offset) bytes;
  open_file_table =
      update s.open_file_table i
        (record (entry s i) { of_offset = (entry s i).of_offset + length bytes });
  inode_table = update s.inode_table p (record (node s p) {
    i_size = grown (node s p).i_size ((entry s i).of_offset + length bytes);
  });
  library_mutex = false;
}

pub clip_write-eq :
    (size offset n : ℕ)
    → offset ≤ size
    → size < 2 ^ 63
    → n < 2 ^ 63
    → clip_write size offset n ≡ min n (size - offset)
unfolding clip_write
clip_write-eq size offset n ho hs hn = ground arith

add_size-eq : (a b : ℕ) → a + b < 2 ^ 63 → add_size a b ≡ a + b
add_size-eq a b h = omega arith

grown_node :
    (nd : Inode) (end : ℕ)
    → (if ltb nd.i_size end then record nd { i_size = end } else nd)
      ≡ record nd { i_size = grown nd.i_size end }
grown_node nd end = ground arith

module _ {s : Fs} {i p b : ℕ} (h : IsHandle s i p) (hb : HasBlock s p b) where
  -- The copy: in bounds, and with no sum that wraps.
  pub write_block-eq :
      (buffer : List ℕ) (n : ℕ)
      → n ≤ length buffer
      → n ≤ room s i
      → write_block i p buffer n s ≡ ok (pos n) (after_write s i p b (take n buffer))
  unfolding write_block
  write_block-eq buffer n fits has_room =
      rw
        (
          data_block_get-ok hb,
          memcpy_in-ok s (b * s.fs_params.block_size + (entry s i).of_offset) buffer n fits
              (HasBlock-in_data (entry s i).of_offset n hb (omega (arith, h.offset_in))),
        )
        (rw (
          ssize_of_size-pos n (omega (arith, h.small, h.offset_in)),
          length-take n buffer fits,
          add_size-eq (entry s i).of_offset n (omega (arith, h.small, h.offset_in)),
          grown_node (node s p) ((entry s i).of_offset + n),
        ))

  -- A file that has a size has a block.
  provide_block-eq : (node s p).i_size ≢ 0 → provide_block p s ≡ ok (pos 0) s
  unfolding provide_block
  provide_block-eq ne = rw (ne→== _ 0 ne)

  -- With bytes to write, and a block to write them to.
  write_some-eq :
      (buffer : List ℕ) (n : ℕ)
      → (node s p).i_size ≢ 0
      → n ≤ length buffer
      → n ≤ room s i
      → write_some i p buffer n s ≡ ok (pos n) (after_write s i p b (take n buffer))
  unfolding write_some
  write_some-eq buffer n ne fits has_room =
      rw (provide_block-eq ne) (write_block-eq buffer n fits has_room)

  write_entry-eq :
      (buffer : List ℕ) (n : ℕ)
      → (node s p).i_size ≢ 0
      → n ≤ length buffer
      → n < 2 ^ 63
      → 0 < min n (room s i)
      → write_entry i buffer n s
        ≡ ok (pos (min n (room s i))) (after_write s i p b (take (min n (room s i)) buffer))
  unfolding write_entry
  write_entry-eq buffer n ne fits small some_bytes =
      rw
        (
          inode_get-ok h,
          clip_write-eq s.fs_params.block_size (entry s i).of_offset n h.offset_in h.small small,
          lt→ltb 0 _ some_bytes,
        )
        (write_some-eq buffer (min n (room s i)) ne (omega arith) (omega arith))

-- `tfs_write` through an open handle on a file that is not empty writes as many of the bytes as fit
-- into the block behind the offset, returns their number, moves the offset behind them, and grows
-- the size where they pass it; nothing else changes. All blocks together have fewer than 2 ^ 64
-- bytes, and one fewer than 2 ^ 63.
pub tfs_write-eq :
    {s : Fs} {i p b : ℕ} (buffer : List ℕ) (n : ℕ)
    → s.library_mutex ≡ false
    → IsHandle s i p
    → HasBlock s p b
    → (node s p).i_size ≢ 0
    → n ≤ length buffer
    → n < 2 ^ 63
    → 0 < min n (room s i)
    → tfs_write (pos i) buffer n s
      ≡ ok (pos (min n (room s i))) (after_write s i p b (take (min n (room s i)) buffer))
unfolding tfs_write
tfs_write-eq {s} buffer n free_mutex h hb ne fits small some_bytes =
    rw (locked-free _ s free_mutex, get_open_file_entry-ok (held-IsHandle h))
      (write_entry-eq (held-IsHandle h) (held-HasBlock hb) buffer n ne fits small some_bytes)
