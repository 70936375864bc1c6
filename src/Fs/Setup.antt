-- ===== src/Fs/Setup.antt =====
-- fs/state.c: state_init and state_destroy; fs/operations.c: tfs_default_params, tfs_init and
-- tfs_destroy.
use so_server_and_pipes.Base.{
  mul_size, ◌*◌, leb, ℕ, Bool, true, false, not, ◌&&◌, Option, none, some, ltb, ◌==◌, if◌then◌else◌,
  ℤ, pos, negsuc, minus_one,
}
use so_server_and_pipes.Fs.Memory.{Bytes}
use so_server_and_pipes.Fs.Exec.{
  fault, Params, Inode, OpenFileEntry, AllocationState, ok, Cmd, pure, ◌>>=◌, free, t_directory,
}
use so_server_and_pipes.Fs.Inodes.{inode_create}

-- What the six calls of malloc in `state_init` return: NULL, or memory with any contents.
pub record Mallocs : Type 0 where
  pub inode_table : Option (ℕ → Inode)
  pub freeinode_ts : Option (ℕ → AllocationState)
  pub fs_data : Option Bytes
  pub free_blocks : Option (ℕ → AllocationState)
  pub open_file_table : Option (ℕ → OpenFileEntry)
  pub free_open_file_entries : Option (ℕ → AllocationState)

abbrev pub is_some {ℓ} : {A : Type ℓ} → Option A → Bool
is_some none = false
is_some (some a) = true

abbrev pub all_allocated : Mallocs → Bool
all_allocated a =
    is_some a.inode_table
    && is_some a.freeinode_ts
    && is_some a.fs_data
    && is_some a.free_blocks
    && is_some a.open_file_table
    && is_some a.free_open_file_entries

-- A pointer that malloc set keeps what it pointed to, for want of anything else, where it is NULL.
abbrev pub or_else {ℓ} : {A : Type ℓ} → Option A → A → A
or_else none a = a
or_else (some b) a = b

-- The loops over the three allocation tables: the first `n` values become FREE.
abbrev pub all_free : (ℕ → AllocationState) → ℕ → ℕ → AllocationState
all_free t n i = if ltb i n then free else t i

-- The loop over an allocation table, of 4 bytes an entry, stays inside what malloc has allocated.
abbrev pub in_allocation : ℕ → Bool
in_allocation n = leb (n * 4) (mul_size n 4)

-- `state_init`: the parameters are stored before the test whether the state exists already.
unfoldable pub state_init : Mallocs → Params → Cmd ℤ
state_init a params s =
    if s.allocated
    then ok minus_one (record s { fs_params = params })
    else if not (all_allocated a)
    then ok minus_one (record s { fs_params = params; allocated = is_some a.inode_table })
    else if not (
        in_allocation params.max_inode_count
        && in_allocation params.max_block_count
        && in_allocation params.max_open_files_count)
    then fault
    else ok (pos 0) (record s {
      fs_params = params;
      allocated = true;
      inode_table = or_else a.inode_table s.inode_table;
      freeinode_ts = all_free (or_else a.freeinode_ts s.freeinode_ts) params.max_inode_count;
      fs_data = or_else a.fs_data s.fs_data;
      free_blocks = all_free (or_else a.free_blocks s.free_blocks) params.max_block_count;
      open_file_table = or_else a.open_file_table s.open_file_table;
      free_open_file_entries =
          all_free (or_else a.free_open_file_entries s.free_open_file_entries)
            params.max_open_files_count;
    })

-- `state_destroy`
unfoldable pub state_destroy : Cmd ℤ
state_destroy s = ok (pos 0) (record s { allocated = false })

-- `tfs_default_params`
abbrev pub tfs_default_params : Params
tfs_default_params = record {
  max_inode_count = 64;
  max_block_count = 1024;
  max_open_files_count = 16;
  block_size = 1024;
}

-- ROOT_DIR_INUM
abbrev pub root_dir_inum : ℤ
root_dir_inum = pos 0

abbrev pub is_zero : ℤ → Bool
is_zero (pos n) = n == 0
is_zero (negsuc n) = false

-- `tfs_init`: NULL stands for the default parameters.
unfoldable pub tfs_init : Mallocs → Option Params → Cmd ℤ
unfolding state_init inode_create
tfs_init a params_ptr = do
  r ← state_init a (or_else params_ptr tfs_default_params)
  if not (is_zero r) then pure minus_one else do
    root ← inode_create t_directory
    if not (is_zero root) then pure minus_one else pure (pos 0)

-- `tfs_destroy`
unfoldable pub tfs_destroy : Cmd ℤ
unfolding state_destroy
tfs_destroy = do r ← state_destroy; if not (is_zero r) then pure minus_one else pure (pos 0)
