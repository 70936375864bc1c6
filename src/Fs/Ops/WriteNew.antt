-- ===== src/Fs/Ops/WriteNew.antt =====
-- tfs_write to an empty file, without space, and with nothing to write.
use so_server_and_pipes.Base.{
  find_below-some, ℕ, ◌^◌, ◌≤◌, ◌<◌, ◌≡◌, ap, ◌∙◌, false, Option, none, some, List, arith, length,
  take, update, pos, minus_one, ssize_of_size, find_below, eq→==, lt→ltb, int_of_size-pos, min,
}
use so_server_and_pipes.Fs.Exec.{Sized, Fs, ok, taken, is_free}
use so_server_and_pipes.Fs.Blocks.{data_block_alloc}
use so_server_and_pipes.Fs.Ops.{provide_block, write_some, write_entry, tfs_write}
use so_server_and_pipes.Fs.Ops.Handles.{
  released, entry, node, IsHandle, HasBlock, get_open_file_entry-ok, inode_get-ok, held-IsHandle,
  locked-free,
}
use so_server_and_pipes.Fs.Ops.Write.{room, after_write, clip_write-eq, write_block-eq}

-- The state after block `b` is allocated for inode `p`.
abbrev pub with_block : Fs → ℕ → ℕ → Fs
with_block s p b = record s {
  free_blocks = update s.free_blocks b taken;
  inode_table = update s.inode_table p (record (node s p) { i_data_block = pos b });
}

-- The first free block, if there is one.
abbrev pub first_free : Fs → Option ℕ
first_free s = find_below (λ j. is_free (s.free_blocks j)) s.fs_params.max_block_count

data_block_alloc-some :
    (s : Fs) (b : ℕ)
    → first_free s ≡ some b
    → b < 2 ^ 31
    → data_block_alloc s ≡ ok (pos b) (record s { free_blocks = update s.free_blocks b taken })
unfolding data_block_alloc
data_block_alloc-some s b found small = let e = int_of_size-pos b small in ground arith

data_block_alloc-none : (s : Fs) → first_free s ≡ none → data_block_alloc s ≡ ok minus_one s
unfolding data_block_alloc
data_block_alloc-none s full = ground arith

module _ {s : Fs} {i p : ℕ} (h : IsHandle s i p) (empty : (node s p).i_size ≡ 0) where
  provide_block-new :
      (b : ℕ)
      → first_free s ≡ some b
      → b < 2 ^ 31
      → provide_block p s ≡ ok (pos 0) (with_block s p b)
  unfolding provide_block
  provide_block-new b found small = rw (eq→== _ 0 empty, data_block_alloc-some s b found small)

  provide_block-full : first_free s ≡ none → provide_block p s ≡ ok minus_one s
  unfolding provide_block
  provide_block-full full = rw (eq→== _ 0 empty, data_block_alloc-none s full)

  with_block-IsHandle : (b : ℕ) → IsHandle (with_block s p b) i p
  with_block-IsHandle b = record {
    in_use = h.in_use;
    open_entry = h.open_entry;
    file = h.file;
    exists = h.exists;
    offset_in = h.offset_in;
    small = h.small;
  }

  with_block-HasBlock :
      (b : ℕ)
      → b < s.fs_params.max_block_count
      → Sized s.fs_params
      → HasBlock (with_block s p b) p b
  with_block-HasBlock b lt sized = record { block = ground arith; valid = lt; sized = sized }

  write_some-new :
      (buffer : List ℕ) (n b : ℕ)
      → first_free s ≡ some b
      → b < 2 ^ 31
      → b < s.fs_params.max_block_count
      → Sized s.fs_params
      → n ≤ length buffer
      → n ≤ room s i
      → write_some i p buffer n s
        ≡ ok (pos n) (after_write (with_block s p b) i p b (take n buffer))
  unfolding write_some
  write_some-new buffer n b found small lt sized fits has_room =
      rw (provide_block-new b found small) (
        write_block-eq (with_block-IsHandle b) (with_block-HasBlock b lt sized) buffer n fits
          has_room)

  write_entry-new :
      (buffer : List ℕ) (n b : ℕ)
      → first_free s ≡ some b
      → s.fs_params.max_block_count ≤ 2 ^ 31
      → Sized s.fs_params
      → n ≤ length buffer
      → n < 2 ^ 63
      → 0 < min n (room s i)
      → write_entry i buffer n s
        ≡ ok
            (pos (min n (room s i)))
            (after_write (with_block s p b) i p b (take (min n (room s i)) buffer))
  unfolding write_entry
  write_entry-new buffer n b found counts sized fits small some_bytes =
      let below = (find_below-some (λ j. is_free (s.free_blocks j)) _ b found).below in
      rw
        (
          inode_get-ok h,
          clip_write-eq s.fs_params.block_size (entry s i).of_offset n h.offset_in h.small small,
          lt→ltb 0 _ some_bytes,
        )
        (write_some-new buffer (min n (room s i)) b found (omega arith) below sized (omega arith)
          (omega arith))

  write_entry-full :
      (buffer : List ℕ) (n : ℕ)
      → first_free s ≡ none
      → n < 2 ^ 63
      → 0 < min n (room s i)
      → write_entry i buffer n s ≡ ok minus_one (record s { library_mutex = false })
  unfolding write_entry write_some
  write_entry-full buffer n full small some_bytes = rw (
    inode_get-ok h,
    clip_write-eq s.fs_params.block_size (entry s i).of_offset n h.offset_in h.small small,
    lt→ltb 0 _ some_bytes,
    provide_block-full full,
  )

module _ {s : Fs} {i p : ℕ} (buffer : List ℕ) (n : ℕ) (free_mutex : s.library_mutex ≡ false)
    (h : IsHandle s i p) (small : n < 2 ^ 63) where
  pub tfs_write-new :
      (b : ℕ)
      → (node s p).i_size ≡ 0
      → first_free s ≡ some b
      → s.fs_params.max_block_count ≤ 2 ^ 31
      → Sized s.fs_params
      → n ≤ length buffer
      → 0 < min n (room s i)
      → tfs_write (pos i) buffer n s
        ≡ ok
            (pos (min n (room s i)))
            (after_write (with_block s p b) i p b (take (min n (room s i)) buffer))
  unfolding tfs_write
  tfs_write-new b empty found counts sized fits some_bytes =
      rw (locked-free _ s free_mutex, get_open_file_entry-ok (held-IsHandle h))
        (write_entry-new (held-IsHandle h) empty buffer n b found counts sized fits small
          some_bytes)

  -- `tfs_write` to an empty file fails if no block is free, and changes nothing.
  pub tfs_write-full :
      (node s p).i_size ≡ 0
      → first_free s ≡ none
      → 0 < min n (room s i)
      → tfs_write (pos i) buffer n s ≡ ok minus_one s
  unfolding tfs_write
  tfs_write-full empty full some_bytes =
      rw (locked-free _ s free_mutex, get_open_file_entry-ok (held-IsHandle h))
        (write_entry-full (held-IsHandle h) empty buffer n full small some_bytes
          ∙ ap (ok minus_one) (released s free_mutex))

  -- `tfs_write` with nothing to write, or with no room behind the offset, returns 0 and changes
  -- nothing.
  pub tfs_write-nothing : min n (room s i) ≡ 0 → tfs_write (pos i) buffer n s ≡ ok (pos 0) s
  unfolding tfs_write write_entry ssize_of_size
  tfs_write-nothing nothing =
      rw
        (
          locked-free _ s free_mutex,
          get_open_file_entry-ok (held-IsHandle h),
          inode_get-ok (held-IsHandle h),
          clip_write-eq s.fs_params.block_size (entry s i).of_offset n h.offset_in h.small small,
          nothing,
        )
        (ap (ok (pos 0)) (released s free_mutex))
