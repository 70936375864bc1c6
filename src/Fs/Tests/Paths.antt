-- ===== src/Fs/Tests/Paths.antt =====
-- The theorems on paths and handles at the states of a small file system.
use so_server_and_pipes.Base.{
  some, if◌then◌else◌, ◌==◌, none, false, ◌≡◌, refl, sym, inl, [], ◌∷◌, arith, pos, minus_one,
  int_of_size, find_from,
}
use so_server_and_pipes.Fs.Exec.{taken, Fs, ok, free}
use so_server_and_pipes.Fs.Inodes.{max_dir_entries}
use so_server_and_pipes.Fs.Dir.{find_in_dir}
use so_server_and_pipes.Fs.Dir.Map.{WfDir}
use so_server_and_pipes.Fs.Dir.Lookup.{base}
use so_server_and_pipes.Fs.Ops.{
  tfs_o_trunc, tfs_open, tfs_unlink, tfs_close, tfs_write, tfs_read, tfs_o_creat, tfs_o_append,
}
use so_server_and_pipes.Fs.Setup.{tfs_init}
use so_server_and_pipes.Fs.Dir.{add_dir_entry}
use so_server_and_pipes.Fs.Ops.Handles.{get_open_file_entry-ok, IsHandle, HasBlock}
use so_server_and_pipes.Fs.Ops.Paths.{IsRooted, path_of}
use so_server_and_pipes.Fs.Ops.Create.{with_handle, tfs_open-new}
use so_server_and_pipes.Fs.OpenFiles.{get_open_file_entry}
use so_server_and_pipes.Fs.Ops.Close.{closed, tfs_close-eq, operations-no_handle}
use so_server_and_pipes.Fs.Ops.Truncate.{emptied, tfs_open-truncate}
use so_server_and_pipes.Fs.Ops.Unlink.{IsFile, tfs_unlink-eq, tfs_open-existing}
use so_server_and_pipes.Fs.Tests.{fresh, two_handles, two_handles-IsHandle, written}
use so_server_and_pipes.Fs.Tests.Directory.{
  name_a, name_b, name_a-IsName, name_b-IsName, a_is_not_b, two_names, fresh-WfDir, two_names-WfDir,
}

fresh-IsRooted : IsRooted fresh 0
unfolding fresh so_server_and_pipes.Fs.Setup.tfs_init find_from int_of_size
fresh-IsRooted = record {
  directory = record { node = refl; block = refl; valid = omega arith; sized = omega arith };
  exists = omega arith;
  in_use = refl;
}

two_handles-IsRooted : IsRooted two_handles 0
unfolding two_handles tfs_open so_server_and_pipes.Fs.Setup.tfs_init find_from int_of_size
two_handles-IsRooted = record {
  directory = record { node = refl; block = refl; valid = omega arith; sized = omega arith };
  exists = omega arith;
  in_use = refl;
}

two_names-IsRooted : IsRooted two_names 0
unfolding two_names so_server_and_pipes.Fs.Dir.add_dir_entry tfs_open tfs_init find_from int_of_size
two_names-IsRooted = record {
  directory = record { node = refl; block = refl; valid = omega arith; sized = omega arith };
  exists = omega arith;
  in_use = refl;
}

first-IsFile : IsFile two_names 1 1
unfolding two_names add_dir_entry tfs_open tfs_init find_from int_of_size
first-IsFile = record { exists = omega arith; in_use = refl; stored = inl refl }

second-IsHandle : IsHandle two_handles 1 1
unfolding two_handles tfs_open tfs_init find_from int_of_size
second-IsHandle = record {
  in_use = omega arith;
  open_entry = refl;
  file = refl;
  exists = omega arith;
  offset_in = omega arith;
  small = omega arith;
}

tfs_open-new_example :
    (s' : Fs) × (tfs_open (path_of name_a) tfs_o_creat fresh ≡ ok (pos 0) s')
    × (s'.library_mutex ≡ false)
    × IsHandle s' 0 1
    × ((s'.inode_table 1).i_size ≡ 0)
    × (s'.freeinode_ts 1 ≡ taken)
    × IsRooted s' 0
    × (find_in_dir 0 name_a s' ≡ ok (pos 1) s')
    × (find_in_dir 0 name_b s' ≡ ok minus_one s')
    × WfDir s'.fs_data (base s' 0) (max_dir_entries s')
unfolding fresh tfs_open so_server_and_pipes.Fs.Setup.tfs_init find_from int_of_size
tfs_open-new_example =
    tfs_open-new name_a name_b tfs_o_creat 1 0 0 minus_one refl (omega arith) fresh-IsRooted
      fresh-WfDir name_a-IsName refl refl refl (omega arith) refl refl (omega arith)
      name_b-IsName.text (λ e. a_is_not_b (sym e)) refl

tfs_open-existing_example :
    tfs_open (path_of name_a) 0 two_handles ≡ ok (pos 2) (with_handle two_handles 2 1 0)
unfolding two_handles tfs_open so_server_and_pipes.Fs.Setup.tfs_init find_from int_of_size
tfs_open-existing_example =
    tfs_open-existing name_a 0 1 2 refl two_handles-IsRooted name_a-IsName refl (omega arith) refl
      refl (omega arith)

tfs_unlink-eq_example :
    (s' : Fs) × (tfs_unlink (path_of name_a) two_names ≡ ok (pos 0) s')
    × (s'.freeinode_ts 1 ≡ free)
    × (find_in_dir 0 name_a s' ≡ ok minus_one s')
    × (find_in_dir 0 name_b s' ≡ ok (pos 2) s')
    × (tfs_open (path_of name_a) tfs_o_append s' ≡ ok minus_one s')
    × WfDir s'.fs_data (base s' 0) (max_dir_entries s')
unfolding two_names so_server_and_pipes.Fs.Dir.add_dir_entry tfs_open tfs_init find_from int_of_size
tfs_unlink-eq_example =
    tfs_unlink-eq name_a name_b tfs_o_append 1 1 (pos 2) refl two_names-IsRooted two_names-WfDir
      name_a-IsName refl (λ e. omega (arith, e)) first-IsFile refl name_b-IsName
      (λ e. a_is_not_b (sym e)) refl

tfs_close-eq_example :
    (tfs_close (pos 0) two_handles ≡ ok (pos 0) (closed two_handles 0))
    × (get_open_file_entry (pos 1) (closed two_handles 0)
        ≡ ok (if 0 == 1 then none else some 1) (closed two_handles 0))
    × (tfs_close (pos 0) (closed two_handles 0) ≡ ok minus_one (closed two_handles 0))
    × (tfs_write (pos 0) (5 ∷ []) 1 (closed two_handles 0) ≡ ok minus_one (closed two_handles 0))
    × (tfs_read (pos 0) 1 (closed two_handles 0) ≡ ok (minus_one, []) (closed two_handles 0))
unfolding two_handles tfs_open so_server_and_pipes.Fs.Setup.tfs_init find_from int_of_size
tfs_close-eq_example =
    tfs_close-eq 1 (some 1) (5 ∷ []) 1 refl two_handles-IsHandle
      (get_open_file_entry-ok second-IsHandle)

operations-no_handle_example :
    (tfs_close (pos 4) two_handles ≡ ok minus_one two_handles)
    × (tfs_write (pos 4) (5 ∷ []) 1 two_handles ≡ ok minus_one two_handles)
    × (tfs_read (pos 4) 1 two_handles ≡ ok (minus_one, []) two_handles)
unfolding two_handles tfs_open so_server_and_pipes.Fs.Setup.tfs_init find_from int_of_size
operations-no_handle_example =
    operations-no_handle two_handles (pos 4) (5 ∷ []) 1 refl (inl (omega arith))

written-IsRooted : IsRooted written 0
unfolding written tfs_write tfs_open tfs_init find_from int_of_size
written-IsRooted = record {
  directory = record { node = refl; block = refl; valid = omega arith; sized = omega arith };
  exists = omega arith;
  in_use = refl;
}

written-HasBlock : HasBlock written 1 1
unfolding written tfs_write tfs_open tfs_init find_from int_of_size
written-HasBlock = record { block = refl; valid = omega arith; sized = omega arith }

tfs_open-truncate_example :
    tfs_open (path_of name_a) tfs_o_trunc written
    ≡ ok (pos 2) (with_handle (emptied written 1 1) 2 1 0)
unfolding written tfs_write tfs_open tfs_init find_from int_of_size
tfs_open-truncate_example =
    tfs_open-truncate name_a tfs_o_trunc 1 2 refl written-IsRooted name_a-IsName refl (omega arith)
      refl (omega arith) written-HasBlock refl (omega arith)
