-- ===== src/Fs/Tests/Files.antt =====
-- The first write to a file, and a write to one of two files.
use so_server_and_pipes.Base.{◌≡◌, refl, [], ◌∷◌, arith, pos, int_of_size, find_from}
use so_server_and_pipes.Fs.Exec.{Fs, ok}
use so_server_and_pipes.Fs.Setup.{tfs_init}
use so_server_and_pipes.Fs.Ops.{tfs_open, tfs_write, tfs_read, tfs_o_creat}
use so_server_and_pipes.Fs.Ops.Handles.{IsHandle, HasBlock}
use so_server_and_pipes.Fs.Ops.ReadBack.{value}
use so_server_and_pipes.Fs.Ops.Isolation.{tfs_read-other_file}
use so_server_and_pipes.Fs.Tests.{final, path_b, written}

-- "/b" is made and written to through handle 2, and open by handle 3.
two_files : Fs
unfolding written
two_files = final (
    tfs_open path_b 0
      (final (tfs_write (pos 2) (1 ∷ 2 ∷ []) 2 (final (tfs_open path_b tfs_o_creat written)))))

writer-IsHandle : IsHandle two_files 0 1
unfolding two_files tfs_write tfs_open tfs_init find_from int_of_size
writer-IsHandle = record {
  in_use = omega arith;
  open_entry = refl;
  file = refl;
  exists = omega arith;
  offset_in = omega arith;
  small = omega arith;
}

reader-IsHandle : IsHandle two_files 3 2
unfolding two_files tfs_write tfs_open tfs_init find_from int_of_size
reader-IsHandle = record {
  in_use = omega arith;
  open_entry = refl;
  file = refl;
  exists = omega arith;
  offset_in = omega arith;
  small = omega arith;
}

written-HasBlock : HasBlock two_files 1 1
unfolding two_files tfs_write tfs_open tfs_init find_from int_of_size
written-HasBlock = record { block = refl; valid = omega arith; sized = omega arith }

read-HasBlock : HasBlock two_files 2 2
unfolding two_files tfs_write tfs_open tfs_init find_from int_of_size
read-HasBlock = record { block = refl; valid = omega arith; sized = omega arith }

tfs_read-other_file_example :
    (s' : Fs) × (tfs_write (pos 0) (4 ∷ 5 ∷ []) 2 two_files ≡ ok (pos 2) s')
    × (value (tfs_read (pos 3) 9 s') ≡ value (tfs_read (pos 3) 9 two_files))
unfolding two_files tfs_write tfs_open tfs_init find_from int_of_size
tfs_read-other_file_example =
    tfs_read-other_file (4 ∷ 5 ∷ []) 2 9 refl writer-IsHandle written-HasBlock
      (λ e. omega (arith, e)) (omega arith) (omega arith) (omega arith) reader-IsHandle
      read-HasBlock (λ e. omega (arith, e)) (λ e. omega (arith, e)) (λ e. omega (arith, e))
      (omega arith) (omega arith) (omega arith)
