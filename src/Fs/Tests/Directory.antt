-- ===== src/Fs/Tests/Directory.antt =====
-- The theorems on directories at the root directory of a small file system.
use so_server_and_pipes.Base.{
  ℕ, ◌≡◌, refl, ap, ◌≢◌, List, [], ◌∷◌, arith, get_or, pos, minus_one, int_of_size, find_from,
}
use so_server_and_pipes.Fs.Exec.{Fs, ok}
use so_server_and_pipes.Fs.Inodes.{max_dir_entries}
use so_server_and_pipes.Fs.Dir.{find_in_dir, add_dir_entry, clear_dir_entry}
use so_server_and_pipes.Fs.Dir.Entries.{IsName}
use so_server_and_pipes.Fs.Dir.Map.{WfDir}
use so_server_and_pipes.Fs.Dir.Blank.{clear_entries-WfDir}
use so_server_and_pipes.Fs.Dir.WellFormed.{fill_entry-WfDir}
use so_server_and_pipes.Fs.Dir.Listing.{look_up, entries, find_in_dir-look_up}
use so_server_and_pipes.Fs.Dir.Lookup.{IsDirectory, base}
use so_server_and_pipes.Fs.Dir.Naming.{find_in_dir-add_dir_entry, find_in_dir-clear_dir_entry}
use so_server_and_pipes.Fs.Setup.{tfs_init}
use so_server_and_pipes.Fs.Tests.{final, fresh, two_handles}

abbrev pub name_a : List ℕ
name_a = b'a' ∷ []

abbrev pub name_b : List ℕ
name_b = b'b' ∷ []

pub name_a-IsName : IsName name_a
name_a-IsName = record { text = (omega arith, tt); some_byte = omega arith; fits = omega arith }

pub name_b-IsName : IsName name_b
name_b-IsName = record { text = (omega arith, tt); some_byte = omega arith; fits = omega arith }

pub a_is_not_b : name_a ≢ name_b
a_is_not_b e = omega (arith, ap (λ n. get_or n 0 0) e)

-- The root directory with "a", and with "a" and "b".
pub root-IsDirectory : IsDirectory two_handles 0 0
unfolding two_handles so_server_and_pipes.Fs.Ops.tfs_open tfs_init find_from int_of_size
root-IsDirectory = record { node = refl; block = refl; valid = omega arith; sized = omega arith }

unfoldable pub two_names : Fs
unfolding two_handles
two_names = final (add_dir_entry 0 name_b (pos 2) two_handles)

pub two_names-IsDirectory : IsDirectory two_names 0 0
unfolding two_names add_dir_entry so_server_and_pipes.Fs.Ops.tfs_open tfs_init find_from int_of_size
two_names-IsDirectory = record {
  node = refl;
  block = refl;
  valid = omega arith;
  sized = omega arith;
}

pub fresh-WfDir : WfDir fresh.fs_data 0 2
unfolding fresh tfs_init so_server_and_pipes.Fs.Inodes.clear_entries find_from int_of_size
fresh-WfDir = clear_entries-WfDir 0 2 (λ _. 0) (λ j lt. refl)

pub two_handles-WfDir : WfDir two_handles.fs_data 0 2
unfolding two_handles find_from so_server_and_pipes.Fs.Dir.is_entry_of tfs_init int_of_size
    so_server_and_pipes.Fs.Ops.tfs_open so_server_and_pipes.Fs.Dir.fill_entry
two_handles-WfDir =
    fill_entry-WfDir fresh-WfDir 0 name_a (pos 1) name_a-IsName (omega arith) refl refl

pub two_names-WfDir : WfDir two_names.fs_data 0 2
unfolding two_names find_from so_server_and_pipes.Fs.Dir.is_entry_of
    so_server_and_pipes.Fs.Ops.tfs_open tfs_init int_of_size
two_names-WfDir =
    fill_entry-WfDir two_handles-WfDir 1 name_b (pos 2) name_b-IsName (omega arith) refl refl

find_in_dir-add_dir_entry_example :
    (find_in_dir 0 name_b two_names ≡ ok (pos 2) two_names)
    × (find_in_dir 0 name_a two_names ≡ ok (pos 1) two_names)
unfolding two_names find_in_dir so_server_and_pipes.Fs.Ops.tfs_open tfs_init find_from int_of_size
find_in_dir-add_dir_entry_example =
    find_in_dir-add_dir_entry name_b (pos 2) name_a (pos 1) root-IsDirectory name_b-IsName
      (omega arith) refl refl refl name_a-IsName.text a_is_not_b refl

find_in_dir-clear_dir_entry_example :
    (s' : Fs) × (clear_dir_entry 0 name_b two_names ≡ ok (pos 0) s')
    × (find_in_dir 0 name_b s' ≡ ok minus_one s')
    × (find_in_dir 0 name_a s' ≡ ok (pos 1) s')
    × WfDir s'.fs_data (base s' 0) (max_dir_entries s')
unfolding two_names add_dir_entry so_server_and_pipes.Fs.Ops.tfs_open tfs_init find_from int_of_size
find_in_dir-clear_dir_entry_example =
    find_in_dir-clear_dir_entry name_b (pos 2) name_a (pos 1) two_names-IsDirectory two_names-WfDir
      name_b-IsName refl refl name_a-IsName a_is_not_b refl

find_in_dir-look_up_example :
    find_in_dir 0 name_b two_names ≡ ok (look_up name_b (entries two_names.fs_data 0 2 0)) two_names
unfolding two_names so_server_and_pipes.Fs.Ops.tfs_open tfs_init find_from int_of_size
find_in_dir-look_up_example =
    find_in_dir-look_up name_b two_names-IsDirectory two_names-WfDir name_b-IsName
