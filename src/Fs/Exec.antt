-- ===== src/Fs/Exec.antt =====
-- The state that fs/state.c keeps in its static variables, its types (fs/state.h), and the commands
-- that read and change it.
use so_server_and_pipes.Base.{
  ◌^◌, mul_size, ◌<◌, ℕ, ◌+◌, ◌*◌, Bool, true, false, ◌&&◌, List, ltb, leb, if◌then◌else◌, length,
  take, ℤ, pos, negsuc,
}
use so_server_and_pipes.Fs.Memory.{Bytes, read_bytes, write_bytes}

-- `tfs_params`
pub record Params : Type 0 where
  pub max_inode_count : ℕ
  pub max_block_count : ℕ
  pub max_open_files_count : ℕ
  pub block_size : ℕ

pub data InodeType : Type 0 where
  t_file t_directory : InodeType

pub record Inode : Type 0 where
  pub i_node_type : InodeType
  pub i_size : ℕ
  pub i_data_block : ℤ

pub data AllocationState : Type 0 where
  free taken : AllocationState

pub record OpenFileEntry : Type 0 where
  pub of_inumber : ℤ
  pub of_offset : ℕ

-- The static variables. A table is a function of its index, of which the first
-- `max_..._count` values are its contents. `allocated` is `inode_table != NULL`, and
-- `library_mutex` says that `g_library_mutex` is held.
pub record Fs : Type 0 where
  pub fs_params : Params
  pub allocated : Bool
  pub inode_table : ℕ → Inode
  pub freeinode_ts : ℕ → AllocationState
  pub fs_data : Bytes
  pub free_blocks : ℕ → AllocationState
  pub open_file_table : ℕ → OpenFileEntry
  pub free_open_file_entries : ℕ → AllocationState
  pub library_mutex : Bool

-- How a command ends: with a value and the new state; by a failed ALWAYS_ASSERT, which ends the
-- process; by an access outside an array; or never, since the mutex is held.
pub data Run {ℓ} (A : Type ℓ) : Type ℓ where
  ok : A → Fs → Run A
  panic : Run A
  fault : Run A
  blocked : Run A

abbrev pub Cmd {ℓ} : Type ℓ → Type ℓ
Cmd A = Fs → Run A

abbrev pub pure {ℓ} : {A : Type ℓ} → A → Cmd A
pure a s = ok a s

abbrev pub and_then {ℓ κ} : {A : Type ℓ} {B : Type κ} → Run A → (A → Cmd B) → Run B
and_then (ok a s) k = k a s
and_then panic k = panic
and_then fault k = fault
and_then blocked k = blocked

infixl 5 ◌>>=◌ ◌>>◌
abbrev pub ◌>>=◌ {ℓ κ} : {A : Type ℓ} {B : Type κ} → Cmd A → (A → Cmd B) → Cmd B
◌>>=◌ m k s = and_then (m s) k

abbrev pub ◌>>◌ {ℓ κ} : {A : Type ℓ} {B : Type κ} → Cmd A → Cmd B → Cmd B
m >> k = m >>= λ _. k

abbrev pub get : Cmd Fs
get s = ok s s

abbrev pub put : Fs → Cmd (Unit {0})
put s' s = ok tt s'

-- `ALWAYS_ASSERT(c, ...)`
abbrev pub always_assert : Bool → Cmd (Unit {0})
always_assert true s = ok tt s
always_assert false s = panic

abbrev pub is_free : AllocationState → Bool
is_free free = true
is_free taken = false

abbrev pub is_directory : InodeType → Bool
is_directory t_file = false
is_directory t_directory = true

-- The index that an `int` stands for, where the code has checked that it is one.
abbrev pub index : ℤ → ℕ
index (pos n) = n
index (negsuc n) = 0

-- `x >= 0 && x < n`
abbrev pub in_table : ℤ → ℕ → Bool
in_table (pos i) n = ltb i n
in_table (negsuc i) n = false

unfoldable pub valid_inumber : Fs → ℤ → Bool
valid_inumber s inumber = in_table inumber s.fs_params.max_inode_count

unfoldable pub valid_block_number : Fs → ℤ → Bool
valid_block_number s block_number = in_table block_number s.fs_params.max_block_count

unfoldable pub valid_file_handle : Fs → ℤ → Bool
valid_file_handle s file_handle = in_table file_handle s.fs_params.max_open_files_count

unfoldable pub state_block_size : Cmd ℕ
state_block_size s = ok s.fs_params.block_size s

-- An access that is inside its array, or is not.
abbrev pub in_bounds : Bool → Cmd (Unit {0})
in_bounds true s = ok tt s
in_bounds false s = fault

-- The number of bytes of `fs_data`: the product that `state_init` passes to malloc, which wraps.
abbrev pub data_size : Fs → ℕ
data_size s = mul_size s.fs_params.max_block_count s.fs_params.block_size

-- The product does not wrap: all blocks are in `fs_data`.
abbrev pub Sized : Params → Type 0
Sized params = params.max_block_count * params.block_size < 2 ^ 64

-- `memcpy(&fs_data[a], buffer, n)`
unfoldable pub memcpy_in : ℕ → List ℕ → ℕ → Cmd (Unit {0})
memcpy_in a buffer n s =
    if leb n (length buffer) && leb (a + n) (data_size s)
    then ok tt (record s { fs_data = write_bytes s.fs_data a (take n buffer) })
    else fault

-- `memcpy(buffer, &fs_data[a], n)`: the bytes that arrive in the buffer.
unfoldable pub memcpy_out : ℕ → ℕ → Cmd (List ℕ)
memcpy_out a n s =
    let bytes = read_bytes s.fs_data a n in if leb (a + n) (data_size s) then ok bytes s else fault
