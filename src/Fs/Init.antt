-- ===== src/Fs/Init.antt =====
-- inode_create for a directory and for a file, and the root directory that tfs_init makes.
use so_server_and_pipes.Base.{
  le→leb, ◌≤◌, ℕ, ◌^◌, ◌<◌, ◌≡◌, true, false, Option, some, arith, update, pos, minus_one,
  find_below, find_from-first, lt→ltb, int_of_size-pos,
}
use so_server_and_pipes.Base.{find_below-some}
use so_server_and_pipes.Fs.Exec.{
  free, Sized, t_file, AllocationState, Fs, Params, ok, is_free, taken, t_directory,
}
use so_server_and_pipes.Fs.Blocks.{data_block_get-pos, data_block_alloc}
use so_server_and_pipes.Fs.Inodes.{
  create_file, create_as, max_dir_entries, clear_entries, inode_alloc, init_directory,
  create_directory, inode_create,
}
use so_server_and_pipes.Fs.Dir.Lookup.{base}
use so_server_and_pipes.Fs.Setup.{
  in_allocation, Mallocs, all_allocated, or_else, all_free, state_init, tfs_init,
}

-- The tables are no larger than an `int` can number, the blocks have fewer than 2 ^ 64 bytes, and
-- offsets in a block are values of `ssize_t`.
pub record Geometry (g : Params) : Type 0 where
  pub few_inodes : g.max_inode_count ≤ 2 ^ 31
  pub few_blocks : g.max_block_count ≤ 2 ^ 31
  pub few_handles : g.max_open_files_count ≤ 2 ^ 31
  pub small_data : Sized g
  pub small_block : g.block_size < 2 ^ 63

-- The state after inode `p` becomes a directory with block `b`.
abbrev pub with_directory : Fs → ℕ → ℕ → Fs
with_directory s p b = record s {
  freeinode_ts = update s.freeinode_ts p taken;
  free_blocks = update s.free_blocks b taken;
  inode_table =
      update s.inode_table p (record {
        i_node_type = t_directory;
        i_size = s.fs_params.block_size;
        i_data_block = pos b;
      });
  fs_data = clear_entries (base s b) (max_dir_entries s) 0 s.fs_data;
}

abbrev pub first_free_inode : Fs → Option ℕ
first_free_inode s = find_below (λ i. is_free (s.freeinode_ts i)) s.fs_params.max_inode_count

abbrev pub first_free_block : Fs → Option ℕ
first_free_block s = find_below (λ i. is_free (s.free_blocks i)) s.fs_params.max_block_count

inode_alloc-some :
    (s : Fs) (p : ℕ)
    → first_free_inode s ≡ some p
    → p < 2 ^ 31
    → inode_alloc s ≡ ok (pos p) (record s { freeinode_ts = update s.freeinode_ts p taken })
unfolding inode_alloc
inode_alloc-some s p found small = let e = int_of_size-pos p small in ground arith

block_alloc-some :
    (s : Fs) (b : ℕ)
    → first_free_block s ≡ some b
    → b < 2 ^ 31
    → data_block_alloc s ≡ ok (pos b) (record s { free_blocks = update s.free_blocks b taken })
unfolding data_block_alloc
block_alloc-some s b found small = let e = int_of_size-pos b small in ground arith

-- The inode is taken when the block is allocated.
create_directory-eq :
    (s : Fs) (p b : ℕ)
    → first_free_block s ≡ some b
    → b < 2 ^ 31
    → Sized s.fs_params
    → create_directory (pos p) (record s { freeinode_ts = update s.freeinode_ts p taken })
      ≡ ok (pos p) (with_directory s p b)
unfolding create_directory init_directory
create_directory-eq s p b found small sized =
    let below = (find_below-some _ _ b found).below in
    rw (block_alloc-some (record s { freeinode_ts = update s.freeinode_ts p taken }) b found small)
      (rw
        (data_block_get-pos (record (with_directory s p b) { fs_data = s.fs_data }) b below sized))

-- `inode_create` of a directory takes the first free inode and the first free block, and clears the
-- entries of the block; the inode's number is what it returns.
pub inode_create-directory :
    (s : Fs) (p b : ℕ)
    → first_free_inode s ≡ some p
    → p < 2 ^ 31
    → first_free_block s ≡ some b
    → b < 2 ^ 31
    → Sized s.fs_params
    → inode_create t_directory s ≡ ok (pos p) (with_directory s p b)
unfolding inode_create create_as
inode_create-directory s p b found small found' small' sized =
    rw (inode_alloc-some s p found small) (create_directory-eq s p b found' small' sized)

-- The state after inode `p` becomes an empty file.
abbrev pub with_file : Fs → ℕ → Fs
with_file s p = record s {
  freeinode_ts = update s.freeinode_ts p taken;
  inode_table =
      update s.inode_table p
        (record { i_node_type = t_file; i_size = 0; i_data_block = minus_one });
}

pub inode_create-file :
    (s : Fs) (p : ℕ)
    → first_free_inode s ≡ some p
    → p < 2 ^ 31
    → inode_create t_file s ≡ ok (pos p) (with_file s p)
unfolding inode_create create_as create_file
inode_create-file s p found small = rw (inode_alloc-some s p found small)

-- In a table that `state_init` has freed the first entry is the first that is free.
all_free-first :
    (t : ℕ → AllocationState) (n : ℕ)
    → 0 < n
    → find_below (λ i. is_free (all_free t n i)) n ≡ some 0
all_free-first t n h =
    find_from-first _ n 0 0 (omega arith) (omega arith) (rw (lt→ltb 0 n h))
      (λ j lo hi. absurd (omega arith))

-- The state that `state_init` leaves.
abbrev initialised : Mallocs → Params → Fs → Fs
initialised a params s = record s {
  fs_params = params;
  allocated = true;
  inode_table = or_else a.inode_table s.inode_table;
  freeinode_ts = all_free (or_else a.freeinode_ts s.freeinode_ts) params.max_inode_count;
  fs_data = or_else a.fs_data s.fs_data;
  free_blocks = all_free (or_else a.free_blocks s.free_blocks) params.max_block_count;
  open_file_table = or_else a.open_file_table s.open_file_table;
  free_open_file_entries =
      all_free (or_else a.free_open_file_entries s.free_open_file_entries)
        params.max_open_files_count;
}

in_allocation-few : (n : ℕ) → n ≤ 2 ^ 31 → in_allocation n ≡ true
in_allocation-few n h = le→leb _ _ (omega arith)

state_init-eq :
    (a : Mallocs) (params : Params) (s : Fs)
    → s.allocated ≡ false
    → all_allocated a ≡ true
    → Geometry params
    → state_init a params s ≡ ok (pos 0) (initialised a params s)
unfolding state_init
state_init-eq a params s fresh enough g = rw (
  fresh,
  enough,
  in_allocation-few params.max_inode_count g.few_inodes,
  in_allocation-few params.max_block_count g.few_blocks,
  in_allocation-few params.max_open_files_count g.few_handles,
)

-- A name for the state of the root directory.
abbrev pub root_made : Mallocs → Params → Fs → Fs
root_made a params s = with_directory (initialised a params s) 0 0

pub tfs_init-eq :
    (a : Mallocs) (params : Params) (s : Fs)
    → s.allocated ≡ false
    → all_allocated a ≡ true
    → 0 < params.max_inode_count
    → 0 < params.max_block_count
    → Geometry params
    → tfs_init a (some params) s ≡ ok (pos 0) (root_made a params s)
unfolding tfs_init
tfs_init-eq a params s fresh enough inodes blocks geometry = rw (
  state_init-eq a params s fresh enough geometry,
  inode_create-directory (initialised a params s) 0 0 (all_free-first _ _ inodes) (omega arith)
      (all_free-first _ _ blocks) (omega arith) geometry.small_data,
)

pub all_free-free : (t : ℕ → AllocationState) (n i : ℕ) → i < n → all_free t n i ≡ free
all_free-free t n i lt = rw (lt→ltb i n lt)
