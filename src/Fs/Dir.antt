-- ===== src/Fs/Dir.antt =====
-- fs/state.c: the entries of a directory, which stand in its data block.
pub mod Entries
pub mod Map
pub mod WellFormed
pub mod Lookup
pub mod Naming
pub mod Blank
pub mod Listing
use so_server_and_pipes.Base.{
  Option, ℕ, ◌+◌, ◌-◌, Bool, not, ◌&&◌, ◌||◌, none, some, List, [], ◌∷◌, ltb, ◌==◌, if◌then◌else◌,
  length, replicate, ℤ, pos, minus_one, is_minus_one, find_below,
}
use so_server_and_pipes.Fs.Memory.{
  strcmp_reads, Bytes, write_bytes, store_int, load_int, str_eq_at, strn_eq_at, strncpy_bytes,
}
use so_server_and_pipes.Fs.Exec.{
  ok, data_size, in_bounds, Fs, Cmd, pure, ◌>>=◌, ◌>>◌, get, put, is_directory,
}
use so_server_and_pipes.Fs.Blocks.{data_block_get}
use so_server_and_pipes.Fs.Inodes.{max_dir_entries, max_file_name, entry_at, d_inumber_at}

-- The tests of the three loops, at entry `i` of the directory whose block is at address `dir_entry`.
abbrev pub has_name : Bytes → ℕ → List ℕ → ℕ → Bool
has_name m dir_entry sub_name i = str_eq_at m (entry_at dir_entry i) sub_name

unfoldable pub is_vacant : Bytes → ℕ → ℕ → Bool
unfolding load_int
is_vacant m dir_entry i = is_minus_one (load_int m (d_inumber_at dir_entry i))

unfoldable pub is_entry_of : Bytes → ℕ → List ℕ → ℕ → Bool
unfolding is_vacant
is_entry_of m dir_entry sub_name i =
    not (is_vacant m dir_entry i) && strn_eq_at m (entry_at dir_entry i) sub_name max_file_name

-- `d_inumber = -1` and the `memset` of the name.
unfoldable pub erase_entry : Bytes → ℕ → ℕ → Bytes
unfolding store_int write_bytes
erase_entry m dir_entry i =
    write_bytes (store_int m (d_inumber_at dir_entry i) minus_one) (entry_at dir_entry i)
      (replicate max_file_name 0)

-- `d_inumber = sub_inumber`, the `strncpy` of the name, and the NUL at its end.
unfoldable pub fill_entry : Bytes → ℕ → ℕ → List ℕ → ℤ → Bytes
unfolding store_int write_bytes
fill_entry m dir_entry i sub_name sub_inumber =
    let m₁ = store_int m (d_inumber_at dir_entry i) sub_inumber in
    let m₂ = write_bytes m₁ (entry_at dir_entry i) (strncpy_bytes sub_name (max_file_name - 1)) in
    write_bytes m₂ (entry_at dir_entry i + (max_file_name - 1)) (0 ∷ [])

-- The strcmp at entry `i` reads past the end of `fs_data`.
unfoldable pub strays : Fs → ℕ → List ℕ → ℕ → Bool
strays s dir_entry sub_name i =
    let a = entry_at dir_entry i in ltb (data_size s) (a + strcmp_reads s.fs_data a sub_name)

-- The end of the loop of `clear_dir_entry`, at the entry that it stops at.
unfoldable pub clear_at : ℕ → List ℕ → Option ℕ → Cmd ℤ
unfolding strays erase_entry
clear_at dir_entry sub_name none = pure minus_one
clear_at dir_entry sub_name (some i) = do
  s ← get
  in_bounds (not (strays s dir_entry sub_name i))
  put (record s { fs_data = erase_entry s.fs_data dir_entry i })
  pure (pos 0)

-- The test of this loop, which stops at the first entry whose strcmp strays or finds the name.
unfoldable pub stops : Fs → ℕ → List ℕ → ℕ → Bool
unfolding strays
stops s dir_entry sub_name i =
    strays s dir_entry sub_name i || has_name s.fs_data dir_entry sub_name i

-- `clear_dir_entry`
unfoldable pub clear_dir_entry : ℕ → List ℕ → Cmd ℤ
unfolding data_block_get clear_at stops
clear_dir_entry inode sub_name = do
  s ← get
  if not (is_directory (s.inode_table inode).i_node_type) then pure minus_one else do
    dir_entry ← data_block_get (s.inode_table inode).i_data_block
    clear_at dir_entry sub_name (find_below (stops s dir_entry sub_name) (max_dir_entries s))

-- `add_dir_entry`
unfoldable pub add_dir_entry : ℕ → List ℕ → ℤ → Cmd ℤ
unfolding data_block_get is_vacant fill_entry
add_dir_entry inode sub_name sub_inumber =
    if length sub_name == 0 || ltb (max_file_name - 1) (length sub_name) then pure minus_one else do
      s ← get
      if not (is_directory (s.inode_table inode).i_node_type) then pure minus_one else do
        dir_entry ← data_block_get (s.inode_table inode).i_data_block
        elim (find_below (is_vacant s.fs_data dir_entry) (max_dir_entries s)) [
          | none ↦ pure minus_one
          | some i ↦ do
            put (record s { fs_data = fill_entry s.fs_data dir_entry i sub_name sub_inumber })
            pure (pos 0)
        ]

-- `find_in_dir`
unfoldable pub find_in_dir : ℕ → List ℕ → Cmd ℤ
unfolding data_block_get is_entry_of load_int
find_in_dir inode sub_name = do
  s ← get
  if not (is_directory (s.inode_table inode).i_node_type) then pure minus_one else do
    dir_entry ← data_block_get (s.inode_table inode).i_data_block
    elim (find_below (is_entry_of s.fs_data dir_entry sub_name) (max_dir_entries s)) [
      | none ↦ pure minus_one
      | some i ↦ pure (load_int s.fs_data (d_inumber_at dir_entry i))
    ]
