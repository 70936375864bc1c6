-- ===== src/Fs/Inv.antt =====
-- The invariant of the state of fs/state.c between the calls of fs/operations.c.
pub mod Tables
pub mod Nodes
pub mod Blocks
pub mod Names
pub mod Frame
pub mod Handles
pub mod Returns
pub mod Write
pub mod Read
pub mod Paths
pub mod Unlink
pub mod Open
pub mod Create
pub mod Start
pub mod Session
use so_server_and_pipes.Base.{
  ℕ, zero, suc, ◌+◌, ◌-◌, ◌*◌, ◌/◌, ◌%◌, ◌^◌, ◌≤◌, ◌<◌, ◌≡◌, refl, sym, ap, ◌∙◌, ◌≢◌, ◌⊎◌, inl, inr,
  Bool, true, false, not, ◌&&◌, ◌||◌, Option, none, some, List, [], ◌∷◌, ◌++◌, arith, ltb, leb,
  ◌==◌, if◌then◌else◌, length, get_or, take, replicate, update, ℤ, pos, negsuc, minus_one,
  is_minus_one, int_of_size, ssize_of_size, find_below, find_from, Finds, IsFirst, find_below-Finds,
  find_from-Finds, find_from-first, find_from-none, Bool-cases, Option-cases, tests, ==→eq, ==→ne,
  eq→==, ne→==, ltb→lt, ltb→le, lt→ltb, le→ltb, length-append, length-replicate, length-take,
  take-length, get_or-append_left, get_or-append_right, get_or-replicate, IsInt, signed32,
  unsigned32, signed32-unsigned32, int_of_size-pos, ssize_of_size-pos, update_self, update-ne, min,
  codes,
}
use so_server_and_pipes.Base.{subst, find_below-some, find_below-none}
use native.Mathlib.Decide.{ℕ_discrete, dec_lt, dec_le}
use so_server_and_pipes.Fs.Init.{Geometry}
use so_server_and_pipes.Fs.Exec.{
  Fs, Params, Inode, OpenFileEntry, AllocationState, taken, free, is_free, t_directory, t_file, ok,
  Run, Cmd, and_then, ◌>>=◌, ◌>>◌, index,
}
use so_server_and_pipes.Fs.Memory.{Bytes, IsText, write_bytes, read_bytes, Same}
use so_server_and_pipes.Fs.Inodes.{dir_entry_size}
use so_server_and_pipes.Fs.Dir.Entries.{IsName}
use so_server_and_pipes.Fs.Dir.Map.{WfDir, dir_value}

-- Inode `p` is in use by a file, which is not the root directory.
pub record IsLive (g : Params) (inodes : ℕ → AllocationState) (p : ℕ) : Type 0 where
  pub not_root : p ≢ 0
  pub exists : p < g.max_inode_count
  pub in_use : inodes p ≡ taken

-- Inode `p` has bytes, which are in block `c`.
pub record Stores (nodes : ℕ → Inode) (p c : ℕ) : Type 0 where
  pub some_bytes : 0 < (nodes p).i_size
  pub block : (nodes p).i_data_block ≡ pos c

-- Block `c` is allocated, and is not the root directory's block `b`.
pub record IsDataBlock (g : Params) (blocks : ℕ → AllocationState) (b c : ℕ) : Type 0 where
  pub valid : c < g.max_block_count
  pub in_use : blocks c ≡ taken
  pub not_root : b ≢ c

-- Inode 0 is the root directory, in block `b`. A file that has bytes has a block of its own, which
-- is allocated, and every block that is allocated is the root's or a file's.
pub record WfNodes (g : Params) (nodes : ℕ → Inode) (inodes blocks : ℕ → AllocationState) (b : ℕ)
    : Type 0 where
  pub root_exists : 0 < g.max_inode_count
  pub root_in_use : inodes 0 ≡ taken
  pub root_node : (nodes 0).i_node_type ≡ t_directory
  pub root_block : (nodes 0).i_data_block ≡ pos b
  pub root_valid : b < g.max_block_count
  pub root_taken : blocks b ≡ taken
  pub fits : (p : ℕ) → IsLive g inodes p → (nodes p).i_size ≤ g.block_size
  pub stored :
      (p : ℕ)
      → IsLive g inodes p
      → ((nodes p).i_size ≡ 0) ⊎ ((c : ℕ) × Stores nodes p c × IsDataBlock g blocks b c)
  pub apart :
      (p q c : ℕ)
      → IsLive g inodes p
      → IsLive g inodes q
      → Stores nodes p c
      → Stores nodes q c
      → p ≡ q
  pub owner : (c : ℕ) → IsDataBlock g blocks b c → (p : ℕ) × IsLive g inodes p × Stores nodes p c

-- The number of entries of a directory, the address of the root directory's, and what it maps a
-- name to.
abbrev pub entry_count : Params → ℕ
entry_count g = g.block_size / dir_entry_size

abbrev pub name_value : Params → Bytes → ℕ → List ℕ → ℤ
name_value g m b n = dir_value m (b * g.block_size) (entry_count g) n

-- The root directory is well formed. Each name leads to a file in use or nowhere, no two names
-- lead to the same file, and each file in use has a name.
pub record WfNames (g : Params) (inodes : ℕ → AllocationState) (m : Bytes) (b : ℕ) : Type 0 where
  pub directory : WfDir m (b * g.block_size) (entry_count g)
  pub target :
      (n : List ℕ)
      → IsName n
      → (name_value g m b n ≡ minus_one)
        ⊎ ((p : ℕ) × (name_value g m b n ≡ pos p) × IsLive g inodes p)
  pub one_name :
      (n t : List ℕ) (p : ℕ)
      → IsName n
      → IsName t
      → name_value g m b n ≡ pos p
      → name_value g m b t ≡ pos p
      → n ≡ t
  pub named : (p : ℕ) → IsLive g inodes p → (n : List ℕ) × IsName n × (name_value g m b n ≡ pos p)

-- An entry of the open file table is open on file `p`, at an offset that is not behind its end.
pub record IsOpenOn (g : Params) (nodes : ℕ → Inode) (inodes : ℕ → AllocationState)
    (e : OpenFileEntry) (p : ℕ) : Type 0 where
  pub live : IsLive g inodes p
  pub file : e.of_inumber ≡ pos p
  pub inside : e.of_offset ≤ (nodes p).i_size

-- Every entry of the open file table in use is open on a file in use.
pub record WfHandles (g : Params) (nodes : ℕ → Inode) (inodes : ℕ → AllocationState)
    (entries : ℕ → OpenFileEntry) (handles : ℕ → AllocationState) : Type 0 where
  pub opened :
      (i : ℕ)
      → i < g.max_open_files_count
      → handles i ≡ taken
      → (p : ℕ) × IsOpenOn g nodes inodes (entries i) p

-- The invariant, of a state whose root directory is in block `b`. It says nothing of the mutex.
pub record Inv (g : Params) (nodes : ℕ → Inode) (inodes : ℕ → AllocationState) (m : Bytes)
    (blocks : ℕ → AllocationState) (entries : ℕ → OpenFileEntry) (handles : ℕ → AllocationState)
    (b : ℕ) : Type 0 where
  pub geometry : Geometry g
  pub nodes_ok : WfNodes g nodes inodes blocks b
  pub names_ok : WfNames g inodes m b
  pub handles_ok : WfHandles g nodes inodes entries handles

abbrev pub Good : Fs → ℕ → Type 0
Good s b =
    Inv s.fs_params s.inode_table s.freeinode_ts s.fs_data s.free_blocks s.open_file_table
      s.free_open_file_entries b
