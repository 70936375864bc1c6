-- ===== src/Fs/Tests.antt =====
-- Runs of the file system on small inputs, and the theorems at their states.
mod Directory
mod Files
mod Paths
mod Session
use so_server_and_pipes.Base.{
  ℕ, zero, suc, ◌+◌, ◌-◌, ◌*◌, ◌/◌, ◌%◌, ◌^◌, ◌≤◌, ◌<◌, ◌≡◌, refl, sym, ap, ◌∙◌, ◌≢◌, ◌⊎◌, inl, inr,
  Bool, true, false, not, ◌&&◌, ◌||◌, Option, none, some, List, [], ◌∷◌, ◌++◌, arith, ltb, leb,
  ◌==◌, if◌then◌else◌, length, get_or, take, replicate, update, ℤ, pos, negsuc, minus_one,
  is_minus_one, int_of_size, ssize_of_size, find_below, find_from, Finds, IsFirst, find_below-Finds,
  find_from-Finds, find_from-first, find_from-none, Bool-cases, Option-cases, tests, ==→eq, ==→ne,
  eq→==, ne→==, ltb→lt, ltb→le, lt→ltb, le→ltb, length-append, length-replicate, length-take,
  take-length, get_or-append_left, get_or-append_right, get_or-replicate, IsInt, signed32,
  unsigned32, signed32-unsigned32, int_of_size-pos, ssize_of_size-pos, update_self, update-ne, min,
}
use so_server_and_pipes.Fs.Memory.{Bytes, write_bytes, read_bytes, load_int, store_int}
use so_server_and_pipes.Fs.Exec.{
  Fs, Run, ok, panic, fault, blocked, Params, Inode, OpenFileEntry, free, taken, t_file,
  AllocationState,
}
use so_server_and_pipes.Fs.Setup.{Mallocs, tfs_init}
use so_server_and_pipes.Fs.Ops.{
  slash, tfs_open, tfs_write, tfs_read, tfs_close, tfs_unlink, tfs_o_creat, tfs_o_trunc,
  tfs_o_append,
}
use so_server_and_pipes.Fs.Ops.ReadBack.{value, tfs_read-tfs_write}
use so_server_and_pipes.Fs.Ops.Handles.{IsHandle, HasBlock}
use so_server_and_pipes.Fs.Ops.Write.{after_write, tfs_write-eq}
use so_server_and_pipes.Fs.Ops.WriteNew.{
  with_block, tfs_write-new, tfs_write-full, tfs_write-nothing,
}
use so_server_and_pipes.Fs.Ops.Read.{bytes_at, after_read, tfs_read-eq}
use so_server_and_pipes.Fs.Ops.Kept.{Ends, Mutex}
use so_server_and_pipes.Fs.Ops.Mutex.{operations-Mutex}
use so_server_and_pipes.Fs.Ops.PastEnd.{tfs_read-past_end}

-- A file system of four inodes, blocks and open files, with two entries in its directory.
abbrev pub params : Params
params = record {
  max_inode_count = 4;
  max_block_count = 4;
  max_open_files_count = 4;
  block_size = 88;
}

abbrev no_inode : Inode
no_inode = record { i_node_type = t_file; i_size = 0; i_data_block = pos 0 }

abbrev no_entry : OpenFileEntry
no_entry = record { of_inumber = pos 0; of_offset = 0 }

-- malloc returns memory full of zeros, in which an allocation table reads FREE.
abbrev pub mallocs : Mallocs
mallocs = record {
  inode_table = some (λ _. no_inode);
  freeinode_ts = some (λ _. free);
  fs_data = some (λ _. 0);
  free_blocks = some (λ _. free);
  open_file_table = some (λ _. no_entry);
  free_open_file_entries = some (λ _. free);
}

abbrev pub blank : Fs
blank = record {
  fs_params = params;
  allocated = false;
  inode_table = λ _. no_inode;
  freeinode_ts = λ _. free;
  fs_data = λ _. 0;
  free_blocks = λ _. free;
  open_file_table = λ _. no_entry;
  free_open_file_entries = λ _. free;
  library_mutex = false;
}

abbrev pub final {ℓ} : {A : Type ℓ} → Run A → Fs
final (ok a s) = s
final panic = blank
final fault = blank
final blocked = blank

abbrev path_a : Option (List ℕ)
path_a = some (slash ∷ b'a' ∷ [])

abbrev pub path_b : Option (List ℕ)
path_b = some (slash ∷ b'b' ∷ [])

-- After tfs_init; with "/a" open by handles 0 and 1; and with three bytes written by handle 0.
pub fresh : Fs
fresh = final (tfs_init mallocs (some params) blank)

pub two_handles : Fs
unfolding fresh
two_handles = final (tfs_open path_a 0 (final (tfs_open path_a tfs_o_creat fresh)))

pub written : Fs
unfolding two_handles
written = final (tfs_write (pos 0) (7 ∷ 8 ∷ 9 ∷ []) 3 two_handles)

-- A write to an empty file, and a read of it through the other handle.
open_returns : value (tfs_open path_a tfs_o_creat fresh) ≡ some (pos 0)
unfolding fresh tfs_open find_from tfs_init int_of_size
open_returns = refl

read_returns : value (tfs_read (pos 1) 10 written) ≡ some (pos 3, 7 ∷ 8 ∷ 9 ∷ [])
unfolding written tfs_read tfs_write tfs_open tfs_init find_from int_of_size ssize_of_size
read_returns = refl

unlink_returns : value (tfs_unlink path_a written) ≡ some (pos 0)
unfolding written tfs_unlink tfs_write tfs_open tfs_init find_from int_of_size
unlink_returns = refl

-- The handles of the states.
pub two_handles-IsHandle : IsHandle two_handles 0 1
unfolding two_handles tfs_open tfs_init find_from int_of_size
two_handles-IsHandle = record {
  in_use = omega arith;
  open_entry = refl;
  file = refl;
  exists = omega arith;
  offset_in = omega arith;
  small = omega arith;
}

writer-IsHandle : IsHandle written 0 1
unfolding written tfs_write tfs_open tfs_init find_from int_of_size
writer-IsHandle = record {
  in_use = omega arith;
  open_entry = refl;
  file = refl;
  exists = omega arith;
  offset_in = omega arith;
  small = omega arith;
}

reader-IsHandle : IsHandle written 1 1
unfolding written tfs_write tfs_open tfs_init find_from int_of_size
reader-IsHandle = record {
  in_use = omega arith;
  open_entry = refl;
  file = refl;
  exists = omega arith;
  offset_in = omega arith;
  small = omega arith;
}

written-HasBlock : HasBlock written 1 1
unfolding written tfs_write tfs_open tfs_init find_from int_of_size
written-HasBlock = record { block = refl; valid = omega arith; sized = omega arith }

tfs_write-eq_example :
    tfs_write (pos 1) (1 ∷ 2 ∷ []) 2 written ≡ ok (pos 2) (after_write written 1 1 1 (1 ∷ 2 ∷ []))
unfolding written tfs_write tfs_open tfs_init find_from int_of_size
tfs_write-eq_example =
    tfs_write-eq (1 ∷ 2 ∷ []) 2 refl reader-IsHandle written-HasBlock (λ e. omega (arith, e))
      (omega arith) (omega arith) (omega arith)

-- "/a" is open by a third handle, which stands at the beginning as handle 1 does.
rewound : Fs
unfolding written
rewound = final (tfs_open path_a 0 written)

rewound_1-IsHandle : IsHandle rewound 1 1
unfolding rewound tfs_write tfs_open tfs_init find_from int_of_size
rewound_1-IsHandle = record {
  in_use = omega arith;
  open_entry = refl;
  file = refl;
  exists = omega arith;
  offset_in = omega arith;
  small = omega arith;
}

rewound_2-IsHandle : IsHandle rewound 2 1
unfolding rewound tfs_write tfs_open tfs_init find_from int_of_size
rewound_2-IsHandle = record {
  in_use = omega arith;
  open_entry = refl;
  file = refl;
  exists = omega arith;
  offset_in = omega arith;
  small = omega arith;
}

rewound-HasBlock : HasBlock rewound 1 1
unfolding rewound tfs_write tfs_open tfs_init find_from int_of_size
rewound-HasBlock = record { block = refl; valid = omega arith; sized = omega arith }

tfs_read-tfs_write_example :
    (s' : Fs) × (tfs_write (pos 1) (4 ∷ 5 ∷ []) 2 rewound ≡ ok (pos 2) s')
    × (value (tfs_read (pos 2) 2 s') ≡ some (pos 2, 4 ∷ 5 ∷ []))
unfolding rewound tfs_write tfs_open tfs_init find_from int_of_size
tfs_read-tfs_write_example =
    tfs_read-tfs_write (4 ∷ 5 ∷ []) 2 refl rewound_1-IsHandle rewound_2-IsHandle
      (λ e. omega (arith, e)) refl rewound-HasBlock (λ e. omega (arith, e)) (omega arith)
      (omega arith) (omega arith) (omega arith)

-- "/a" is opened once more and truncated: handle 0 is left behind its end.
truncated : Fs
unfolding written
truncated = final (tfs_open path_a tfs_o_trunc written)

truncated-IsHandle : IsHandle truncated 0 1
unfolding truncated tfs_write tfs_open tfs_init find_from int_of_size
truncated-IsHandle = record {
  in_use = omega arith;
  open_entry = refl;
  file = refl;
  exists = omega arith;
  offset_in = omega arith;
  small = omega arith;
}

truncated-HasBlock : HasBlock truncated 1 1
unfolding truncated tfs_write tfs_open tfs_init find_from int_of_size
truncated-HasBlock = record { block = refl; valid = omega arith; sized = omega arith }

tfs_read-past_end_example :
    tfs_read (pos 0) 5 truncated ≡ ok (pos 5, bytes_at truncated 0 1 5) (after_read truncated 0 5)
unfolding truncated tfs_write tfs_open tfs_init find_from int_of_size
tfs_read-past_end_example =
    tfs_read-past_end 5 refl truncated-IsHandle truncated-HasBlock (omega arith) (omega arith)
      (omega arith) (omega arith)

operations-Mutex_example :
    Ends (Mutex false) (tfs_open path_b tfs_o_creat written)
    × Ends (Mutex false) (tfs_close (pos 0) written)
    × Ends (Mutex false) (tfs_write (pos 0) (7 ∷ []) 1 written)
    × Ends (Mutex false) (tfs_read (pos 0) 1 written)
    × Ends (Mutex false) (tfs_unlink path_b written)
unfolding written tfs_write tfs_open tfs_init find_from int_of_size
operations-Mutex_example = operations-Mutex written path_b tfs_o_creat (pos 0) (7 ∷ []) 1 refl
