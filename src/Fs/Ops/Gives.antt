-- ===== src/Fs/Ops/Gives.antt =====
-- The library mutex: what follows the lock in an operation gives it back.
use so_server_and_pipes.Base.{
  add_size, ℕ, ◌+◌, refl, Bool, true, false, List, [], ltb, if◌then◌else◌, update, ℤ, minus_one,
  is_minus_one, ssize_of_size,
}
use so_server_and_pipes.Fs.Exec.{
  OpenFileEntry, OpenFileEntry, ◌>>=◌, ◌>>◌, Fs, Cmd, and_then, memcpy_in, memcpy_out, t_file,
}
use so_server_and_pipes.Fs.Ops.Kept.{
  Ends, Ends-bind, Ends-if, Mutex, add_dir_entry-Mutex, add_to_open_file_table-Mutex,
  data_block_get-Mutex, inode_create-Mutex, inode_delete-Mutex, inode_get-Mutex, memcpy_in-Mutex,
  memcpy_out-Mutex, provide_block-Mutex, truncate-Mutex,
}
use so_server_and_pipes.Fs.Blocks.{data_block_get}
use so_server_and_pipes.Fs.Inodes.{inode_create, inode_delete, inode_get}
use so_server_and_pipes.Fs.Dir.{add_dir_entry}
use so_server_and_pipes.Fs.OpenFiles.{add_to_open_file_table}
use so_server_and_pipes.Fs.Ops.{
  clip_write, clip_read, clip_write, unlock_return_with, unlock_return, finish_open, truncate,
  open_existing, open_new, provide_block, advance_write, write_block, write_some, write_entry,
  read_some, read_entry,
}

pub unlock_return-Mutex : (v : ℤ) (s : Fs) → Ends (Mutex false) (unlock_return v s)
unfolding unlock_return
unlock_return-Mutex v s = refl

-- With the mutex held, what follows the lock gives it back.
abbrev pub Gives {ℓ} : {A : Type ℓ} → Cmd A → Type 0
Gives c = (s : Fs) → Mutex true s → Ends (Mutex false) (c s)

-- The next command leaves the mutex held.
abbrev pub Holding {ℓ} : {A : Type ℓ} → Cmd A → Type 0
Holding c = (s : Fs) → Mutex true s → Ends (Mutex true) (c s)

pub then-Gives {ℓ κ} :
    {A : Type ℓ} {B : Type κ} (c : Cmd A) (k : A → Cmd B)
    → Holding c
    → ((a : A) → Gives (k a))
    → Gives (c >>= k)
then-Gives c k hold next s h = Ends-bind (Mutex true) (Mutex false) (c s) k (hold s h) (λ a. next a)

pub if_Gives {ℓ} :
    {A : Type ℓ} (b : Bool) (c d : Cmd A) → Gives c → Gives d → Gives (if b then c else d)
if_Gives b c d hc hd s h = Ends-if (Mutex false) b c d s (hc s h) (hd s h)

pub unlock_return-Gives : (v : ℤ) → Gives (unlock_return v)
unlock_return-Gives v s h = unlock_return-Mutex v s

pub finish_open-Gives : (inum : ℤ) (offset : ℕ) → Gives (finish_open inum offset)
unfolding finish_open
finish_open-Gives inum offset =
    then-Gives (add_to_open_file_table inum offset) unlock_return
      (λ s h. add_to_open_file_table-Mutex true s h inum offset) unlock_return-Gives

pub open_existing-Gives : (inum : ℤ) (mode : ℕ) → Gives (open_existing inum mode)
unfolding open_existing
open_existing-Gives inum mode =
    then-Gives (inode_get inum) _ (λ s h. inode_get-Mutex true s h inum)
      λ p.
        then-Gives (truncate p mode) _ (λ s h. truncate-Mutex true s h p mode)
          λ _ s. finish_open-Gives inum _ s

pub open_new-Gives : (p : ℕ) (n : List ℕ) → Gives (open_new p n)
unfolding open_new
open_new-Gives p n = then-Gives (inode_create t_file) _ (inode_create-Mutex true) λ inum s h.
    Ends-if (Mutex false) (is_minus_one inum) _ _ s (unlock_return-Gives minus_one s h) (
      then-Gives (add_dir_entry p n inum) _ (λ s h. add_dir_entry-Mutex true s h p n inum)
        (λ r s h.
          Ends-if (Mutex false) (is_minus_one r) _ _ s
            (then-Gives (inode_delete inum) _ (λ s h. inode_delete-Mutex true s h inum)
              (λ _. unlock_return-Gives minus_one) s h)
            (finish_open-Gives inum 0 s h))
        s h)

pub write_block-Gives : (file p : ℕ) (bs : List ℕ) (n : ℕ) → Gives (write_block file p bs n)
unfolding write_block
write_block-Gives file p bs n s h =
    Ends-bind (Mutex true) (Mutex false) (data_block_get (s.inode_table p).i_data_block s)
      (λ a.
        memcpy_in (a + (s.open_file_table file).of_offset) bs n
        >> (advance_write file p n >> unlock_return (ssize_of_size n)))
      (data_block_get-Mutex true s h _)
      λ a t g.
        Ends-bind (Mutex true) (Mutex false)
          (memcpy_in (a + (s.open_file_table file).of_offset) bs n t)
          (λ _. advance_write file p n >> unlock_return (ssize_of_size n))
          (memcpy_in-Mutex true t g _ bs n) λ _ u g. refl

pub write_some-Gives : (file p : ℕ) (bs : List ℕ) (n : ℕ) → Gives (write_some file p bs n)
unfolding write_some
write_some-Gives file p bs n =
    then-Gives (provide_block p) _ (λ s h. provide_block-Mutex true s h p)
      λ r s h.
        Ends-if (Mutex false) (is_minus_one r) (unlock_return minus_one) (write_block file p bs n) s
          (unlock_return-Gives minus_one s h) (write_block-Gives file p bs n s h)

pub write_entry-Gives : (file : ℕ) (bs : List ℕ) (n : ℕ) → Gives (write_entry file bs n)
unfolding write_entry
write_entry-Gives file bs n s h =
    Ends-bind (Mutex true) (Mutex false) (inode_get (s.open_file_table file).of_inumber s)
      (λ p t.
        (if ltb 0 (k t) then write_some file p bs (k t) else unlock_return (ssize_of_size (k t))) t)
      (inode_get-Mutex true s h _)
      λ p t g.
        Ends-if (Mutex false) (ltb 0 (k t)) (write_some file p bs (k t))
          (unlock_return (ssize_of_size (k t))) t (write_some-Gives file p bs (k t) t g)
          (unlock_return-Gives (ssize_of_size (k t)) t g)
  where
    k : Fs → ℕ
    k t = clip_write t.fs_params.block_size (s.open_file_table file).of_offset n

-- The result of `tfs_read` is a pair, of which the unlock returns the first part.
pub unlock_return_with-Gives : (bytes : List ℕ) (v : ℤ) → Gives (unlock_return_with bytes v)
unfolding unlock_return
unlock_return_with-Gives bytes v s h = refl

pub read_some-Gives : (file p n : ℕ) → Gives (read_some file p n)
unfolding read_some
read_some-Gives file p n s h =
    Ends-bind (Mutex true) (Mutex false) (data_block_get (s.inode_table p).i_data_block s)
      (λ a t. and_then (memcpy_out (a + (s.open_file_table file).of_offset) n t) finish)
      (data_block_get-Mutex true s h _)
      λ a t g.
        Ends-bind (Mutex true) (Mutex false)
          (memcpy_out (a + (s.open_file_table file).of_offset) n t) finish
          (memcpy_out-Mutex true t g _ n) λ bytes u g. refl
  where
    entry : OpenFileEntry
    entry = s.open_file_table file

    finish : List ℕ → Cmd (ℤ × List ℕ)
    finish bytes u = unlock_return_with bytes (ssize_of_size n) (record u {
      open_file_table =
          update u.open_file_table file (record entry { of_offset = add_size entry.of_offset n });
    })

pub read_entry-Gives : (file len : ℕ) → Gives (read_entry file len)
unfolding read_entry
read_entry-Gives file len s h =
    Ends-bind (Mutex true) (Mutex false) (inode_get (s.open_file_table file).of_inumber s)
      (λ p.
        if ltb 0 (k p) then read_some file p (k p) else unlock_return_with [] (ssize_of_size (k p)))
      (inode_get-Mutex true s h _)
      λ p t g.
        Ends-if (Mutex false) (ltb 0 (k p)) (read_some file p (k p))
          (unlock_return_with [] (ssize_of_size (k p))) t (read_some-Gives file p (k p) t g)
          (unlock_return_with-Gives [] (ssize_of_size (k p)) t g)
  where
    k : ℕ → ℕ
    k p = clip_read (s.inode_table p).i_size (s.open_file_table file).of_offset len
