-- ===== src/Fs/Ops/Kept.antt =====
-- What a run leaves of the library mutex: the commands of fs/state.c leave it as it is.
use so_server_and_pipes.Base.{ℕ, ◌≡◌, Bool, true, false, Option, List, arith, if◌then◌else◌, ℤ}
use so_server_and_pipes.Fs.Exec.{
  Fs, Run, ok, panic, fault, blocked, Cmd, and_then, memcpy_in, memcpy_out, t_file,
}
use so_server_and_pipes.Fs.Blocks.{data_block_alloc, data_block_free, data_block_get}
use so_server_and_pipes.Fs.Inodes.{inode_create, inode_delete, inode_get}
use so_server_and_pipes.Fs.Dir.{find_in_dir, add_dir_entry, clear_dir_entry}
use so_server_and_pipes.Fs.OpenFiles.{
  add_to_open_file_table, remove_from_open_file_table, get_open_file_entry,
}
use so_server_and_pipes.Fs.Ops.{tfs_lookup, truncate, provide_block, advance_write}

-- A run that does not wait, and whose final state, if it has one, has `P`.
abbrev pub Ends {ℓ} : {A : Type ℓ} → (Fs → Type 0) → Run A → Type 0
Ends P blocked = ⊥
Ends P (ok a s) = P s
Ends P panic = Unit
Ends P fault = Unit

-- The mutex is held, or is free.
abbrev pub Mutex : Bool → Fs → Type 0
Mutex b s = s.library_mutex ≡ b

pub data_block_alloc-Mutex : (b : Bool) (s : Fs) → Mutex b s → Ends (Mutex b) (data_block_alloc s)
unfolding data_block_alloc
data_block_alloc-Mutex b s h = ground arith

pub Ends-bind {ℓ κ} :
    {A : Type ℓ} {B : Type κ} (P Q : Fs → Type 0) (r : Run A) (k : A → Cmd B)
    → Ends P r
    → ((a : A) (s : Fs) → P s → Ends Q (k a s))
    → Ends Q (and_then r k)
Ends-bind P Q (ok a s) k p next = next a s p
Ends-bind P Q panic k p next = tt
Ends-bind P Q fault k p next = tt
Ends-bind P Q blocked k p next = absurd p

pub Ends-if {ℓ} :
    {A : Type ℓ} (P : Fs → Type 0) (b : Bool) (c d : Cmd A) (s : Fs)
    → Ends P (c s)
    → Ends P (d s)
    → Ends P ((if b then c else d) s)
Ends-if P true c d s hc hd = hc
Ends-if P false c d s hc hd = hd

-- The commands of fs/state.c leave the mutex as it is.
module _ (b : Bool) (s : Fs) (h : Mutex b s) where
  pub data_block_free-Mutex : (n : ℤ) → Ends (Mutex b) (data_block_free n s)
  unfolding data_block_free
  data_block_free-Mutex n = ground arith

  pub data_block_get-Mutex : (n : ℤ) → Ends (Mutex b) (data_block_get n s)
  unfolding data_block_get
  data_block_get-Mutex n = ground arith

  pub inode_get-Mutex : (n : ℤ) → Ends (Mutex b) (inode_get n s)
  unfolding inode_get
  inode_get-Mutex n = ground arith

  pub inode_create-Mutex : Ends (Mutex b) (inode_create t_file s)
  unfolding inode_create
  inode_create-Mutex = ground arith

  pub inode_delete-Mutex : (n : ℤ) → Ends (Mutex b) (inode_delete n s)
  unfolding inode_delete
  inode_delete-Mutex n = ground arith

  pub find_in_dir-Mutex : (p : ℕ) (n : List ℕ) → Ends (Mutex b) (find_in_dir p n s)
  unfolding find_in_dir
  find_in_dir-Mutex p n = ground arith

  pub add_dir_entry-Mutex : (p : ℕ) (n : List ℕ) (v : ℤ) → Ends (Mutex b) (add_dir_entry p n v s)
  unfolding add_dir_entry
  add_dir_entry-Mutex p n v = ground arith

  pub clear_dir_entry-Mutex : (p : ℕ) (n : List ℕ) → Ends (Mutex b) (clear_dir_entry p n s)
  unfolding clear_dir_entry
  clear_dir_entry-Mutex p n = ground arith

  pub add_to_open_file_table-Mutex :
      (n : ℤ) (offset : ℕ) → Ends (Mutex b) (add_to_open_file_table n offset s)
  unfolding add_to_open_file_table
  add_to_open_file_table-Mutex n offset = ground arith

  pub remove_from_open_file_table-Mutex : (n : ℤ) → Ends (Mutex b) (remove_from_open_file_table n s)
  unfolding remove_from_open_file_table
  remove_from_open_file_table-Mutex n = ground arith

  pub get_open_file_entry-Mutex : (n : ℤ) → Ends (Mutex b) (get_open_file_entry n s)
  unfolding get_open_file_entry
  get_open_file_entry-Mutex n = ground arith

  pub memcpy_in-Mutex : (a : ℕ) (bs : List ℕ) (n : ℕ) → Ends (Mutex b) (memcpy_in a bs n s)
  unfolding memcpy_in
  memcpy_in-Mutex a bs n = ground arith

  pub memcpy_out-Mutex : (a n : ℕ) → Ends (Mutex b) (memcpy_out a n s)
  unfolding memcpy_out
  memcpy_out-Mutex a n = ground arith

  pub tfs_lookup-Mutex : (name : Option (List ℕ)) (p : ℕ) → Ends (Mutex b) (tfs_lookup name p s)
  unfolding tfs_lookup
  tfs_lookup-Mutex name p = ground arith

  pub truncate-Mutex : (p mode : ℕ) → Ends (Mutex b) (truncate p mode s)
  unfolding truncate
  truncate-Mutex p mode = ground arith

  pub provide_block-Mutex : (p : ℕ) → Ends (Mutex b) (provide_block p s)
  unfolding provide_block
  provide_block-Mutex p = ground arith

  pub advance_write-Mutex : (f p n : ℕ) → Ends (Mutex b) (advance_write f p n s)
  unfolding advance_write
  advance_write-Mutex f p n = h
