-- ===== src/Fs/Ops/Handles.antt =====
-- Handles that are open, and the steps that every operation on a handle begins with.
use so_server_and_pipes.Base.{
  ℕ, ◌+◌, ◌*◌, ◌^◌, ◌≤◌, ◌<◌, ◌≡◌, sym, true, false, some, List, arith, length, take, ℤ, pos,
  lt→ltb,
}
use so_server_and_pipes.Fs.Memory.{write_bytes, read_bytes}
use so_server_and_pipes.Fs.Exec.{
  Sized, Fs, ok, Cmd, Inode, OpenFileEntry, taken, memcpy_in, memcpy_out, data_size,
}
use so_server_and_pipes.Fs.Blocks.{data_size-Sized, data_block_get-pos, data_block_get}
use so_server_and_pipes.Fs.Inodes.{inode_get}
use so_server_and_pipes.Fs.OpenFiles.{get_open_file_entry}
use so_server_and_pipes.Fs.Ops.{locked}

-- The file that entry `i` of the open file table is open on, and its offset.
abbrev pub entry : Fs → ℕ → OpenFileEntry
entry s i = s.open_file_table i

abbrev pub node : Fs → ℕ → Inode
node s p = s.inode_table p

-- `i` is an open handle on the file of inode `p`. Block sizes are such that offsets within a block
-- are values of `ssize_t`.
pub record IsHandle (s : Fs) (i p : ℕ) : Type 0 where
  pub in_use : i < s.fs_params.max_open_files_count
  pub open_entry : s.free_open_file_entries i ≡ taken
  pub file : (entry s i).of_inumber ≡ pos p
  pub exists : p < s.fs_params.max_inode_count
  pub offset_in : (entry s i).of_offset ≤ s.fs_params.block_size
  pub small : s.fs_params.block_size < 2 ^ 63

-- The data block of inode `p` is block `b`, in a file system of fewer than 2 ^ 64 bytes.
pub record HasBlock (s : Fs) (p b : ℕ) : Type 0 where
  pub block : (node s p).i_data_block ≡ pos b
  pub valid : b < s.fs_params.max_block_count
  pub sized : Sized s.fs_params

-- A range of a block lies in `fs_data`.
pub block_in_data : (b c size off n : ℕ) → b < c → off + n ≤ size → b * size + off + n ≤ c * size
block_in_data b c size off n hb h = grind arith

pub HasBlock-in_data :
    {s : Fs} {p b : ℕ} (off n : ℕ)
    → HasBlock s p b
    → off + n ≤ s.fs_params.block_size
    → b * s.fs_params.block_size + off + n ≤ data_size s
HasBlock-in_data {s} {b} off n hb h =
    let size = data_size-Sized s hb.sized in
    let fits =
      block_in_data b s.fs_params.max_block_count s.fs_params.block_size off n hb.valid h in
    omega (arith, size, fits)

module _ {s : Fs} {i p : ℕ} (h : IsHandle s i p) where
  pub get_open_file_entry-ok : get_open_file_entry (pos i) s ≡ ok (some i) s
  unfolding get_open_file_entry
  get_open_file_entry-ok = rw (lt→ltb _ _ h.in_use, h.open_entry)

  pub inode_get-ok : inode_get (entry s i).of_inumber s ≡ ok p s
  unfolding inode_get
  inode_get-ok = rw (h.file, lt→ltb _ _ h.exists)

pub data_block_get-ok :
    {s : Fs} {p b : ℕ}
    → HasBlock s p b
    → data_block_get (node s p).i_data_block s ≡ ok (b * s.fs_params.block_size) s
data_block_get-ok {s} {b} hb = rw hb.block (data_block_get-pos s b hb.valid hb.sized)

pub memcpy_in-ok :
    (s : Fs) (a : ℕ) (buffer : List ℕ) (n : ℕ)
    → n ≤ length buffer
    → a + n ≤ data_size s
    → memcpy_in a buffer n s
      ≡ ok tt (record s { fs_data = write_bytes s.fs_data a (take n buffer) })
unfolding memcpy_in
memcpy_in-ok s a buffer n h h' = ground arith

pub memcpy_out-ok :
    (s : Fs) (a n : ℕ) → a + n ≤ data_size s → memcpy_out a n s ≡ ok (read_bytes s.fs_data a n) s
unfolding memcpy_out
memcpy_out-ok s a n h = ground arith

-- The state with the library mutex held.
abbrev pub held : Fs → Fs
held s = record s { library_mutex = true }

pub held-IsHandle : {s : Fs} {i p : ℕ} → IsHandle s i p → IsHandle (held s) i p
held-IsHandle h = record {
  in_use = h.in_use;
  open_entry = h.open_entry;
  file = h.file;
  exists = h.exists;
  offset_in = h.offset_in;
  small = h.small;
}

pub held-HasBlock : {s : Fs} {p b : ℕ} → HasBlock s p b → HasBlock (held s) p b
held-HasBlock h = record { block = h.block; valid = h.valid; sized = h.sized }

pub locked-free : (body : Cmd ℤ) (s : Fs) → s.library_mutex ≡ false → locked body s ≡ body (held s)
unfolding locked
locked-free body s h = rw h

pub released : (s : Fs) → s.library_mutex ≡ false → record s { library_mutex = false } ≡ s
released s h = λ j. record s { library_mutex = sym h j }
