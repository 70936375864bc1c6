-- ===== src/Fs/Inodes.antt =====
-- fs/state.c: the inode table. A pointer to an inode is its index in the table.
use so_server_and_pipes.Base.{
  ℕ, zero, suc, ◌+◌, ◌*◌, ◌/◌, not, none, some, ltb, if◌then◌else◌, update, ℤ, minus_one,
  is_minus_one, int_of_size, find_below,
}
use so_server_and_pipes.Fs.Memory.{Bytes, store_int}
use so_server_and_pipes.Fs.Exec.{
  Fs, ok, Cmd, pure, ◌>>=◌, ◌>>◌, get, put, always_assert, free, taken, is_free, index,
  valid_inumber, InodeType, Inode, t_file, t_directory,
}
use so_server_and_pipes.Fs.Blocks.{data_block_alloc, data_block_free, data_block_get}

-- `sizeof(dir_entry_t)`: a name of 40 bytes, and an `int` behind it.
abbrev pub dir_entry_size : ℕ
dir_entry_size = 44

abbrev pub max_file_name : ℕ
max_file_name = 40

abbrev pub max_dir_entries : Fs → ℕ
max_dir_entries s = s.fs_params.block_size / dir_entry_size

-- `&dir_entry[i]`, and `&dir_entry[i].d_inumber`.
abbrev pub entry_at : ℕ → ℕ → ℕ
entry_at dir_entry i = dir_entry + dir_entry_size * i

abbrev pub d_inumber_at : ℕ → ℕ → ℕ
d_inumber_at dir_entry i = entry_at dir_entry i + max_file_name

-- A change of `inode_table[p]`.
abbrev pub set_inode : ℕ → Inode → Cmd (Unit {0})
set_inode p inode s = ok tt (record s { inode_table = update s.inode_table p inode })

-- `inode_alloc`
unfoldable pub inode_alloc : Cmd ℤ
inode_alloc s = elim (find_below (λ i. is_free (s.freeinode_ts i)) s.fs_params.max_inode_count) [
  | none ↦ ok minus_one s
  | some i ↦ ok (int_of_size i) (record s { freeinode_ts = update s.freeinode_ts i taken })
]

-- `inode_delete`
unfoldable pub inode_delete : ℤ → Cmd (Unit {0})
unfolding valid_inumber data_block_free
inode_delete inumber = do
  s ← get
  always_assert (valid_inumber s inumber)
  always_assert (not (is_free (s.freeinode_ts (index inumber))))
  let inode = s.inode_table (index inumber)
  if ltb 0 inode.i_size then data_block_free inode.i_data_block else pure tt
  s ← get
  put (record s { freeinode_ts = update s.freeinode_ts (index inumber) free })

-- The loop of `inode_create` over the entries of a new directory, `k` rounds from entry `i` on.
unfoldable pub clear_entries : ℕ → ℕ → ℕ → Bytes → Bytes
clear_entries dir_entry zero i m = m
clear_entries dir_entry (suc k) i m =
    clear_entries dir_entry k (i + 1) (store_int m (d_inumber_at dir_entry i) minus_one)

-- The case T_DIRECTORY of `inode_create` where no block is free.
unfoldable pub drop_directory : ℤ → Cmd ℤ
unfolding inode_delete
drop_directory inumber = do
  set_inode (index inumber)
      (record { i_node_type = t_directory; i_size = 0; i_data_block = minus_one })
  inode_delete inumber
  pure minus_one

-- The case T_DIRECTORY of `inode_create` with the new block `b`.
unfoldable pub init_directory : ℤ → ℤ → Cmd ℤ
unfolding clear_entries store_int data_block_get
init_directory inumber b = do
  s ← get
  set_inode (index inumber)
      (record { i_node_type = t_directory; i_size = s.fs_params.block_size; i_data_block = b })
  dir_entry ← data_block_get b
  s ← get
  put (record s { fs_data = clear_entries dir_entry (max_dir_entries s) 0 s.fs_data })
  pure inumber

unfoldable pub create_directory : ℤ → Cmd ℤ
unfolding drop_directory init_directory data_block_alloc
create_directory inumber = do
  b ← data_block_alloc
  if is_minus_one b then drop_directory inumber else init_directory inumber b

-- The case T_FILE of `inode_create`.
unfoldable pub create_file : ℤ → Cmd ℤ
create_file inumber = do
  set_inode (index inumber) (record { i_node_type = t_file; i_size = 0; i_data_block = minus_one })
  pure inumber

unfoldable pub create_as : InodeType → ℤ → Cmd ℤ
unfolding create_directory create_file
create_as t_directory inumber = create_directory inumber
create_as t_file inumber = create_file inumber

-- `inode_create`
unfoldable pub inode_create : InodeType → Cmd ℤ
unfolding inode_alloc create_as
inode_create i_type = do
  inumber ← inode_alloc
  if is_minus_one inumber then pure minus_one else create_as i_type inumber

-- `inode_get`: the pointer to the inode.
unfoldable pub inode_get : ℤ → Cmd ℕ
unfolding valid_inumber
inode_get inumber = do s ← get; always_assert (valid_inumber s inumber); pure (index inumber)
