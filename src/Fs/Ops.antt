-- ===== src/Fs/Ops.antt =====
-- fs/operations.c: the operations on files.
pub mod Kept
pub mod Gives
pub mod Mutex
pub mod Handles
pub mod Write
pub mod WriteNew
pub mod Append
pub mod WriteEnd
pub mod Read
pub mod ReadBack
pub mod PastEnd
pub mod Isolation
pub mod Paths
pub mod Create
pub mod Close
pub mod Unlink
pub mod Truncate
use so_server_and_pipes.Base.{
  add_size, sub_size, ℕ, ◌+◌, ◌-◌, ◌%◌, ◌^◌, Bool, true, false, not, ◌&&◌, Option, none, some, List,
  [], ◌∷◌, ltb, ◌==◌, if◌then◌else◌, length, update, ℤ, pos, negsuc, minus_one, is_minus_one,
  ssize_of_size,
}
use Prim.Native.Nat.{bit_and}
use so_server_and_pipes.Fs.Exec.{
  ok, blocked, Cmd, pure, ◌>>=◌, ◌>>◌, get, put, t_file, state_block_size, memcpy_in, memcpy_out,
}
use so_server_and_pipes.Fs.Blocks.{data_block_alloc, data_block_free, data_block_get}
use so_server_and_pipes.Fs.Inodes.{inode_create, inode_delete, inode_get, set_inode}
use so_server_and_pipes.Fs.Dir.{find_in_dir, add_dir_entry, clear_dir_entry}
use so_server_and_pipes.Fs.OpenFiles.{
  add_to_open_file_table, remove_from_open_file_table, get_open_file_entry,
}
use so_server_and_pipes.Fs.Setup.{root_dir_inum}

-- `pthread_mutex_lock(&g_library_mutex)` and `pthread_mutex_unlock(&g_library_mutex)`, of a mutex
-- that is valid: they return 0, and a lock of a mutex that is held waits.
unfoldable pub mutex_lock : Cmd ℤ
mutex_lock s = if s.library_mutex then blocked else ok (pos 0) (record s { library_mutex = true })

unfoldable pub mutex_unlock : Cmd ℤ
mutex_unlock s = ok (pos 0) (record s { library_mutex = false })

-- The unlock before each return, and the value returned.
unfoldable pub unlock_return : ℤ → Cmd ℤ
unfolding mutex_unlock
unlock_return v = do r ← mutex_unlock; if is_minus_one r then pure minus_one else pure v

-- The body between the lock and the unlocks.
unfoldable pub locked : Cmd ℤ → Cmd ℤ
unfolding mutex_lock
locked body = do r ← mutex_lock; if is_minus_one r then pure minus_one else body

-- `tfs_file_mode_t`, and `mode & flag`.
abbrev pub tfs_o_creat : ℕ
tfs_o_creat = 1

abbrev pub tfs_o_trunc : ℕ
tfs_o_trunc = 2

abbrev pub tfs_o_append : ℕ
tfs_o_append = 4

abbrev pub has_flag : ℕ → ℕ → Bool
has_flag mode flag = not (bit_and mode flag == 0)

abbrev pub slash : ℕ
slash = b'/'

-- `valid_pathname`: `none` is NULL.
unfoldable pub valid_pathname : Option (List ℕ) → Bool
valid_pathname none = false
valid_pathname (some []) = false
valid_pathname (some (c ∷ cs)) = ltb 1 (length (c ∷ cs)) && c == slash

-- `name + 1`
abbrev pub skip_slash : Option (List ℕ) → List ℕ
skip_slash none = []
skip_slash (some []) = []
skip_slash (some (c ∷ cs)) = cs

-- `tfs_lookup`
unfoldable pub tfs_lookup : Option (List ℕ) → ℕ → Cmd ℤ
unfolding valid_pathname find_in_dir
tfs_lookup name root_inode =
    if not (valid_pathname name) then pure minus_one else find_in_dir root_inode (skip_slash name)

abbrev pub is_negative : ℤ → Bool
is_negative (pos n) = false
is_negative (negsuc n) = true

-- The end of `tfs_open`.
unfoldable pub finish_open : ℤ → ℕ → Cmd ℤ
unfolding add_to_open_file_table unlock_return
finish_open inum offset = do ret ← add_to_open_file_table inum offset; unlock_return ret

-- The part of `tfs_open` under TFS_O_TRUNC.
unfoldable pub truncate : ℕ → ℕ → Cmd (Unit {0})
unfolding data_block_free
truncate inode mode = do
  s ← get
  let file = s.inode_table inode
  if has_flag mode tfs_o_trunc && ltb 0 file.i_size
      then (do data_block_free file.i_data_block; set_inode inode (record file { i_size = 0 }))
      else pure tt

-- `tfs_open` of a file that exists.
unfoldable pub open_existing : ℤ → ℕ → Cmd ℤ
unfolding inode_get truncate finish_open
open_existing inum mode = do
  inode ← inode_get inum
  truncate inode mode
  s ← get
  finish_open inum (if has_flag mode tfs_o_append then (s.inode_table inode).i_size else 0)

-- `tfs_open` of a file that does not exist, under TFS_O_CREAT.
unfoldable pub open_new : ℕ → List ℕ → Cmd ℤ
unfolding inode_create add_dir_entry inode_delete finish_open
open_new root_dir_inode sub_name = do
  inum ← inode_create t_file
  if is_minus_one inum then unlock_return minus_one else do
    r ← add_dir_entry root_dir_inode sub_name inum
    if is_minus_one r then (do inode_delete inum; unlock_return minus_one) else finish_open inum 0

-- `tfs_open` after the lookup.
unfoldable pub open_found : ℕ → List ℕ → ℕ → ℤ → Cmd ℤ
unfolding open_existing open_new unlock_return
open_found root_dir_inode sub_name mode inum =
    if not (is_negative inum)
    then open_existing inum mode
    else if has_flag mode tfs_o_creat
    then open_new root_dir_inode sub_name
    else unlock_return minus_one

-- `tfs_open` with a path name that is valid.
unfoldable pub open_path : Option (List ℕ) → ℕ → Cmd ℤ
unfolding inode_get tfs_lookup open_found
open_path name mode = do
  root_dir_inode ← inode_get root_dir_inum
  inum ← tfs_lookup name root_dir_inode
  open_found root_dir_inode (skip_slash name) mode inum

-- `tfs_open`
unfoldable pub tfs_open : Option (List ℕ) → ℕ → Cmd ℤ
unfolding locked valid_pathname open_path unlock_return
tfs_open name mode =
    locked (if not (valid_pathname name) then unlock_return minus_one else open_path name mode)

-- `tfs_close` after the lookup of the handle.
unfoldable pub close_found : ℤ → Option ℕ → Cmd ℤ
unfolding remove_from_open_file_table unlock_return
close_found fhandle none = unlock_return minus_one
close_found fhandle (some file) = do remove_from_open_file_table fhandle; unlock_return (pos 0)

-- `tfs_close`
unfoldable pub tfs_close : ℤ → Cmd ℤ
unfolding locked get_open_file_entry close_found
tfs_close fhandle = locked (get_open_file_entry fhandle >>= close_found fhandle)

-- The bytes that `tfs_write` is to write, from offset `offset` on.
unfoldable pub clip_write : ℕ → ℕ → ℕ → ℕ
clip_write block_size offset to_write =
    if ltb block_size (add_size to_write offset) then sub_size block_size offset else to_write

-- In `tfs_write`: an empty file gets a block. The result is -1 if there is none.
unfoldable pub provide_block : ℕ → Cmd ℤ
unfolding data_block_alloc
provide_block inode = do
  s ← get
  if not ((s.inode_table inode).i_size == 0) then pure (pos 0) else do
    bnum ← data_block_alloc
    if is_minus_one bnum then pure minus_one else do
      s ← get
      set_inode inode (record (s.inode_table inode) { i_data_block = bnum })
      pure (pos 0)

-- In `tfs_write`: the offset grows, and the size where the offset passes it.
unfoldable pub advance_write : ℕ → ℕ → ℕ → Cmd (Unit {0})
advance_write file inode to_write s =
    let entry = s.open_file_table file in
    let node = s.inode_table inode in
    let offset = add_size entry.of_offset to_write in
    ok tt (record s {
      open_file_table = update s.open_file_table file (record entry { of_offset = offset });
      inode_table =
          update s.inode_table inode
            (if ltb node.i_size offset then record node { i_size = offset } else node);
    })

-- In `tfs_write`: the copy into the block, and the return.
unfoldable pub write_block : ℕ → ℕ → List ℕ → ℕ → Cmd ℤ
unfolding data_block_get memcpy_in advance_write unlock_return
write_block file inode buffer to_write = do
  s ← get
  block ← data_block_get (s.inode_table inode).i_data_block
  memcpy_in (block + (s.open_file_table file).of_offset) buffer to_write
  advance_write file inode to_write
  unlock_return (ssize_of_size to_write)

-- `tfs_write` where there is something to write.
unfoldable pub write_some : ℕ → ℕ → List ℕ → ℕ → Cmd ℤ
unfolding provide_block write_block unlock_return
write_some file inode buffer to_write = do
  r ← provide_block inode
  if is_minus_one r then unlock_return minus_one else write_block file inode buffer to_write

-- `tfs_write` on an entry of the open file table.
unfoldable pub write_entry : ℕ → List ℕ → ℕ → Cmd ℤ
unfolding inode_get state_block_size clip_write write_some
write_entry file buffer to_write = do
  s ← get
  inode ← inode_get (s.open_file_table file).of_inumber
  block_size ← state_block_size
  let n = clip_write block_size (s.open_file_table file).of_offset to_write
  if ltb 0 n then write_some file inode buffer n else unlock_return (ssize_of_size n)

-- `tfs_write` after the lookup of the handle.
unfoldable pub write_found : List ℕ → ℕ → Option ℕ → Cmd ℤ
unfolding write_entry unlock_return
write_found buffer to_write none = unlock_return minus_one
write_found buffer to_write (some file) = write_entry file buffer to_write

-- `tfs_write`
unfoldable pub tfs_write : ℤ → List ℕ → ℕ → Cmd ℤ
unfolding locked get_open_file_entry write_found
tfs_write fhandle buffer to_write =
    locked (get_open_file_entry fhandle >>= write_found buffer to_write)

-- The bytes that `tfs_read` is to read.
unfoldable pub clip_read : ℕ → ℕ → ℕ → ℕ
clip_read size offset len = let n = sub_size size offset in if ltb len n then len else n

-- The result of `tfs_read` is its value, and what it has put into the caller's buffer.
abbrev pub unlock_return_with : List ℕ → ℤ → Cmd (ℤ × List ℕ)
unlock_return_with bytes v = do r ← unlock_return v; pure (r, bytes)

-- `tfs_read` where there is something to read.
unfoldable pub read_some : ℕ → ℕ → ℕ → Cmd (ℤ × List ℕ)
unfolding data_block_get memcpy_out unlock_return
read_some file inode to_read = do
  s ← get
  block ← data_block_get (s.inode_table inode).i_data_block
  let entry = s.open_file_table file
  bytes ← memcpy_out (block + entry.of_offset) to_read
  s ← get
  put (record s {
    open_file_table =
        update s.open_file_table file
          (record entry { of_offset = add_size entry.of_offset to_read });
  })
  unlock_return_with bytes (ssize_of_size to_read)

-- `tfs_read` on an entry of the open file table.
unfoldable pub read_entry : ℕ → ℕ → Cmd (ℤ × List ℕ)
unfolding inode_get clip_read read_some
read_entry file len = do
  s ← get
  inode ← inode_get (s.open_file_table file).of_inumber
  let n = clip_read (s.inode_table inode).i_size (s.open_file_table file).of_offset len
  if ltb 0 n then read_some file inode n else unlock_return_with [] (ssize_of_size n)

-- `tfs_read` after the lookup of the handle.
unfoldable pub read_found : ℕ → Option ℕ → Cmd (ℤ × List ℕ)
unfolding read_entry unlock_return
read_found len none = unlock_return_with [] minus_one
read_found len (some file) = read_entry file len

-- `tfs_read`
unfoldable pub tfs_read : ℤ → ℕ → Cmd (ℤ × List ℕ)
unfolding mutex_lock get_open_file_entry read_found
tfs_read fhandle len = do
  r ← mutex_lock
  if is_minus_one r then pure (minus_one, []) else get_open_file_entry fhandle >>= read_found len

-- `tfs_unlink` of the file `inum`.
unfoldable pub unlink_found : ℕ → List ℕ → ℤ → Cmd ℤ
unfolding inode_delete clear_dir_entry unlock_return
unlink_found root_dir_inode sub_name inum =
    if is_minus_one inum then unlock_return minus_one else do
      inode_delete inum
      r ← clear_dir_entry root_dir_inode sub_name
      if is_minus_one r then unlock_return minus_one else unlock_return (pos 0)

-- `tfs_unlink` with a path name that is valid.
unfoldable pub unlink_path : Option (List ℕ) → Cmd ℤ
unfolding inode_get tfs_lookup unlink_found
unlink_path target = do
  root_dir_inode ← inode_get root_dir_inum
  inum ← tfs_lookup target root_dir_inode
  unlink_found root_dir_inode (skip_slash target) inum

-- `tfs_unlink`
unfoldable pub tfs_unlink : Option (List ℕ) → Cmd ℤ
unfolding locked valid_pathname unlink_path unlock_return
tfs_unlink target =
    locked (if not (valid_pathname target) then unlock_return minus_one else unlink_path target)
