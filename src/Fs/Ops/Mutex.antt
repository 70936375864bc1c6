-- ===== src/Fs/Ops/Mutex.antt =====
-- The library mutex: every operation that takes it gives it back.
use so_server_and_pipes.Base.{
  ℕ, ◌≡◌, refl, true, false, not, Option, none, some, List, [], if◌then◌else◌, ℤ, pos, minus_one,
  is_minus_one,
}
use so_server_and_pipes.Fs.Exec.{◌>>=◌, Fs, Cmd}
use so_server_and_pipes.Fs.Ops.Kept.{
  Ends, Mutex, clear_dir_entry-Mutex, get_open_file_entry-Mutex, inode_delete-Mutex,
  inode_get-Mutex, remove_from_open_file_table-Mutex, tfs_lookup-Mutex,
}
use so_server_and_pipes.Fs.Inodes.{inode_delete, inode_get}
use so_server_and_pipes.Fs.Dir.{clear_dir_entry}
use so_server_and_pipes.Fs.OpenFiles.{remove_from_open_file_table, get_open_file_entry}
use so_server_and_pipes.Fs.Setup.{root_dir_inum}
use so_server_and_pipes.Fs.Ops.{
  open_found, open_path, close_found, write_found, read_found, unlink_found, unlink_path,
  is_negative, has_flag, tfs_o_creat, valid_pathname, skip_slash, unlock_return, locked, tfs_lookup,
  open_existing, open_new, tfs_open, tfs_close, tfs_write, tfs_read, tfs_unlink,
}
use so_server_and_pipes.Fs.Ops.Gives.{
  Gives, then-Gives, if_Gives, unlock_return-Gives, open_existing-Gives, open_new-Gives,
  write_entry-Gives, unlock_return_with-Gives, read_entry-Gives,
}

locked-Mutex :
    (body : Cmd ℤ) → Gives body → (s : Fs) → Mutex false s → Ends (Mutex false) (locked body s)
unfolding locked
locked-Mutex body gives s h = rw h (gives _ refl)

open_found-Gives :
    (root : ℕ) (n : List ℕ) (mode : ℕ) (inum : ℤ) → Gives (open_found root n mode inum)
unfolding open_found
open_found-Gives root n mode inum =
    if_Gives (not (is_negative inum)) (open_existing inum mode)
      (if has_flag mode tfs_o_creat then open_new root n else unlock_return minus_one)
      (open_existing-Gives inum mode)
      (if_Gives (has_flag mode tfs_o_creat) (open_new root n) (unlock_return minus_one)
        (open_new-Gives root n) (unlock_return-Gives minus_one))

open_path-Gives : (name : Option (List ℕ)) (mode : ℕ) → Gives (open_path name mode)
unfolding open_path
open_path-Gives name mode =
    then-Gives (inode_get root_dir_inum) _ (λ s h. inode_get-Mutex true s h root_dir_inum)
      λ root.
        then-Gives (tfs_lookup name root) (open_found root (skip_slash name) mode)
          (λ s h. tfs_lookup-Mutex true s h name root)
          (open_found-Gives root (skip_slash name) mode)

unlink_found-Gives : (root : ℕ) (n : List ℕ) (inum : ℤ) → Gives (unlink_found root n inum)
unfolding unlink_found
unlink_found-Gives root n inum =
    if_Gives (is_minus_one inum) (unlock_return minus_one) _ (unlock_return-Gives minus_one) (
      then-Gives (inode_delete inum) _ (λ s h. inode_delete-Mutex true s h inum)
        λ _.
          then-Gives (clear_dir_entry root n) _ (λ s h. clear_dir_entry-Mutex true s h root n)
            λ r.
              if_Gives (is_minus_one r) (unlock_return minus_one) (unlock_return (pos 0))
                (unlock_return-Gives minus_one) (unlock_return-Gives (pos 0)))

unlink_path-Gives : (target : Option (List ℕ)) → Gives (unlink_path target)
unfolding unlink_path
unlink_path-Gives target =
    then-Gives (inode_get root_dir_inum) _ (λ s h. inode_get-Mutex true s h root_dir_inum)
      λ root.
        then-Gives (tfs_lookup target root) (unlink_found root (skip_slash target))
          (λ s h. tfs_lookup-Mutex true s h target root)
          (unlink_found-Gives root (skip_slash target))

close_found-Gives : (fhandle : ℤ) (file : Option ℕ) → Gives (close_found fhandle file)
unfolding close_found
close_found-Gives fhandle none = unlock_return-Gives minus_one
close_found-Gives fhandle (some file) =
    then-Gives (remove_from_open_file_table fhandle) (λ _. unlock_return (pos 0))
      (λ s h. remove_from_open_file_table-Mutex true s h fhandle) (λ _. unlock_return-Gives (pos 0))

write_found-Gives : (bs : List ℕ) (n : ℕ) (file : Option ℕ) → Gives (write_found bs n file)
unfolding write_found
write_found-Gives bs n none = unlock_return-Gives minus_one
write_found-Gives bs n (some file) = write_entry-Gives file bs n

read_found-Gives : (len : ℕ) (file : Option ℕ) → Gives (read_found len file)
unfolding read_found
read_found-Gives len none = unlock_return_with-Gives [] minus_one
read_found-Gives len (some file) = read_entry-Gives file len

-- An operation on a handle: the lookup, and what follows it.
entry-Gives {ℓ} :
    {A : Type ℓ} (fhandle : ℤ) (k : Option ℕ → Cmd A)
    → ((file : Option ℕ) → Gives (k file))
    → Gives (get_open_file_entry fhandle >>= k)
entry-Gives fhandle k next =
    then-Gives (get_open_file_entry fhandle) k (λ s h. get_open_file_entry-Mutex true s h fhandle)
      next

-- Every operation that is called with the library mutex free returns with it free, on each of its
-- returns, unless an assertion or an access outside an array ends the process; it never waits for
-- a mutex that it holds itself.
pub operations-Mutex :
    (s : Fs) (name : Option (List ℕ)) (mode : ℕ) (fhandle : ℤ) (buffer : List ℕ) (n : ℕ)
    → s.library_mutex ≡ false
    → Ends (Mutex false) (tfs_open name mode s)
      × Ends (Mutex false) (tfs_close fhandle s)
      × Ends (Mutex false) (tfs_write fhandle buffer n s)
      × Ends (Mutex false) (tfs_read fhandle n s)
      × Ends (Mutex false) (tfs_unlink name s)
unfolding tfs_open tfs_close tfs_write tfs_read tfs_unlink
operations-Mutex s name mode fhandle buffer n h = (
  locked-Mutex _
      (if_Gives (not (valid_pathname name)) (unlock_return minus_one) (open_path name mode)
        (unlock_return-Gives minus_one) (open_path-Gives name mode))
      s h,
  locked-Mutex _ (entry-Gives fhandle (close_found fhandle) (close_found-Gives fhandle)) s h,
  locked-Mutex _ (entry-Gives fhandle (write_found buffer n) (write_found-Gives buffer n)) s h,
  rw h (entry-Gives fhandle (read_found n) (read_found-Gives n) _ refl),
  locked-Mutex _
      (if_Gives (not (valid_pathname name)) (unlock_return minus_one) (unlink_path name)
        (unlock_return-Gives minus_one) (unlink_path-Gives name))
      s h,
)
