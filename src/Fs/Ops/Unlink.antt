-- ===== src/Fs/Ops/Unlink.antt =====
-- tfs_unlink of a name that the root directory has, and tfs_open of it.
use so_server_and_pipes.Base.{
  ℕ, ◌^◌, ◌<◌, ◌≡◌, refl, ap, ◌∙◌, ◌≢◌, ◌⊎◌, inl, inr, false, some, List, ltb, if◌then◌else◌,
  update, ℤ, pos, minus_one, is_minus_one, Bool-cases, lt→ltb, update_self, update-ne,
}
use so_server_and_pipes.Fs.Exec.{Fs, ok, taken, free, index, valid_inumber, AllocationState}
use so_server_and_pipes.Fs.Memory.{Bytes}
use so_server_and_pipes.Fs.Blocks.{data_block_free}
use so_server_and_pipes.Fs.Inodes.{max_dir_entries, inode_delete, inode_get}
use so_server_and_pipes.Fs.Dir.{find_in_dir, clear_dir_entry}
use so_server_and_pipes.Fs.Dir.Entries.{IsName}
use so_server_and_pipes.Fs.Dir.Map.{WfDir}
use so_server_and_pipes.Fs.Dir.Naming.{clear_dir_entry-value}
use so_server_and_pipes.Fs.Dir.Lookup.{IsDirectory, base, find_in_dir-ok, find_in_dir-value}
use so_server_and_pipes.Fs.Ops.{
  tfs_open, tfs_unlink, unlink_found, open_found, open_existing, truncate, has_flag, tfs_o_creat,
  tfs_o_trunc, tfs_o_append, unlock_return,
}
use so_server_and_pipes.Fs.Ops.Handles.{held, HasBlock, node}
use so_server_and_pipes.Fs.Ops.Create.{first_free_handle, with_handle, finish_open-eq}
use so_server_and_pipes.Fs.Ops.Paths.{
  IsRooted, path_of, tfs_open-found, tfs_unlink-found, tfs_open-missing,
}

-- The blocks after the inode `p` is deleted: a file with a size gives back its block.
abbrev pub blocks_without : Fs → ℕ → ℕ → AllocationState
blocks_without s p =
    if ltb 0 (node s p).i_size
    then update s.free_blocks (index (node s p).i_data_block) free
    else s.free_blocks

-- The state after `inode_delete`.
abbrev pub without : Fs → ℕ → Fs
without s p = record s {
  free_blocks = blocks_without s p;
  freeinode_ts = update s.freeinode_ts p free;
}

-- An inode in use with a block, or without a size.
pub record IsFile (s : Fs) (p c : ℕ) : Type 0 where
  pub exists : p < s.fs_params.max_inode_count
  pub in_use : s.freeinode_ts p ≡ taken
  pub stored : ((node s p).i_size ≡ 0) ⊎ HasBlock s p c

pub inode_delete-eq :
    {s : Fs} {p c : ℕ} → IsFile s p c → inode_delete (pos p) s ≡ ok tt (without s p)
unfolding inode_delete valid_inumber data_block_free
inode_delete-eq {s} {p} f = elim f.stored [
  | inl e ↦ rw (lt→ltb p s.fs_params.max_inode_count f.exists, f.in_use, e)
  | inr hb ↦ elim (Bool-cases (ltb 0 (node s p).i_size)) [
    | inl t ↦ rw (
      lt→ltb p s.fs_params.max_inode_count f.exists,
      f.in_use,
      t,
      hb.block,
      lt→ltb _ s.fs_params.max_block_count hb.valid,
    )
    | inr e ↦ rw (lt→ltb p s.fs_params.max_inode_count f.exists, f.in_use, e)
  ]
]

pub unlink_found-eq :
    {s : Fs} {p c : ℕ} (n : List ℕ) (m : Bytes)
    → IsFile s p c
    → clear_dir_entry 0 n (without s p) ≡ ok (pos 0) (record (without s p) { fs_data = m })
    → unlink_found 0 n (pos p) s
      ≡ ok (pos 0) (record (without s p) { fs_data = m; library_mutex = false })
unfolding unlink_found unlock_return
unlink_found-eq n m file done = rw (inode_delete-eq file, done)

-- `tfs_unlink` of a name that a well-formed root directory has returns 0 and frees the file's
-- inode. The name is not found then, so that `tfs_open` of it without TFS_O_CREAT fails; any other
-- name leads where it led, and the directory stays well formed. All blocks together have fewer than
-- 2 ^ 64 bytes.
pub tfs_unlink-eq :
    {s : Fs} {b : ℕ} (n t : List ℕ) (mode p c : ℕ) (w : ℤ)
    → s.library_mutex ≡ false
    → IsRooted s b
    → WfDir s.fs_data (base s b) (max_dir_entries s)
    → IsName n
    → find_in_dir 0 n s ≡ ok (pos p) s
    → p ≢ 0
    → IsFile s p c
    → has_flag mode tfs_o_creat ≡ false
    → IsName t
    → t ≢ n
    → find_in_dir 0 t s ≡ ok w s
    → (s' : Fs) × (tfs_unlink (path_of n) s ≡ ok (pos 0) s')
      × (s'.freeinode_ts p ≡ free)
      × (find_in_dir 0 n s' ≡ ok minus_one s')
      × (find_in_dir 0 t s' ≡ ok w s')
      × (tfs_open (path_of n) mode s' ≡ ok minus_one s')
      × WfDir s'.fs_data (base s' b) (max_dir_entries s')
tfs_unlink-eq {s} {b} n t mode p c w free_mutex h wf name found apart file no_create text other
      seen =
    let here = find_in_dir-value n h.directory found in
    let (m, done, gone, kept, wf', outside) =
      clear_dir_entry-value {s = without (held s) p} n dir wf name (ap is_minus_one here) in
    let rooted = rooted' m in
    let missing = find_in_dir-ok n minus_one rooted.directory gone in
    (
      after m,
      tfs_unlink-found h free_mutex n name.some_byte
          ∙ ap (λ v. unlink_found 0 n v (held s)) here
          ∙ unlink_found-eq n m held_file done,
      update_self s.freeinode_ts p free,
      missing,
      find_in_dir-ok t w rooted.directory
          (kept t text other ∙ find_in_dir-value t h.directory seen),
      (tfs_open-missing rooted refl n name.some_byte mode missing no_create).0,
      wf',
    )
  where
    dir : IsDirectory (without (held s) p) 0 b
    dir = record {
      node = h.directory.node;
      block = h.directory.block;
      valid = h.directory.valid;
      sized = h.directory.sized;
    }

    after : Bytes → Fs
    after m = record (without s p) { fs_data = m; library_mutex = false }

    rooted' : (m : Bytes) → IsRooted (after m) b
    rooted' m = record {
      directory = record {
        node = dir.node;
        block = dir.block;
        valid = dir.valid;
        sized = dir.sized;
      };
      exists = h.exists;
      in_use = update-ne s.freeinode_ts p free 0 apart ∙ h.in_use;
    }

    held_file : IsFile (held s) p c
    held_file = record {
      exists = file.exists;
      in_use = file.in_use;
      stored = elim file.stored [
        | inl e ↦ inl e
        | inr hb ↦ inr (record { block = hb.block; valid = hb.valid; sized = hb.sized })
      ];
    }

pub open_found-existing :
    (s : Fs) (n : List ℕ) (mode p k : ℕ)
    → p < s.fs_params.max_inode_count
    → has_flag mode tfs_o_trunc ≡ false
    → first_free_handle s ≡ some k
    → k < 2 ^ 31
    → open_found 0 n mode (pos p) s
      ≡ ok (pos k) (with_handle s k p (if has_flag mode tfs_o_append then (node s p).i_size else 0))
unfolding open_found open_existing truncate inode_get valid_inumber
open_found-existing s n mode p k exists keep handle small =
    rw (lt→ltb p s.fs_params.max_inode_count exists, keep) (finish_open-eq s p k _ handle small)

-- `tfs_open` of a file that exists, not to be truncated, returns the first free entry of the open
-- file table as a handle on it, which stands at the beginning, or at the end under TFS_O_APPEND.
-- All blocks together have fewer than 2 ^ 64 bytes.
pub tfs_open-existing :
    {s : Fs} {b : ℕ} (n : List ℕ) (mode p k : ℕ)
    → s.library_mutex ≡ false
    → IsRooted s b
    → IsName n
    → find_in_dir 0 n s ≡ ok (pos p) s
    → p < s.fs_params.max_inode_count
    → has_flag mode tfs_o_trunc ≡ false
    → first_free_handle s ≡ some k
    → k < 2 ^ 31
    → tfs_open (path_of n) mode s
      ≡ ok (pos k) (with_handle s k p (if has_flag mode tfs_o_append then (node s p).i_size else 0))
tfs_open-existing {s} n mode p k free_mutex h name found exists keep handle small =
    tfs_open-found h free_mutex n name.some_byte mode
    ∙ ap (λ v. open_found 0 n mode v (held s)) (find_in_dir-value n h.directory found)
    ∙ open_found-existing (held s) n mode p k exists keep handle small
