-- ===== src/Fs/Ops/Paths.antt =====
-- tfs_open and tfs_unlink by path: what a name in the root directory has to do with them.
use so_server_and_pipes.Base.{
  length, ℕ, ◌<◌, ◌≡◌, refl, ap, ◌∙◌, true, false, not, Option, some, List, ◌∷◌, arith,
  if◌then◌else◌, ℤ, pos, minus_one, lt→ltb,
}
use so_server_and_pipes.Fs.Exec.{Fs, ok, taken}
use so_server_and_pipes.Fs.Inodes.{max_dir_entries, inode_get}
use so_server_and_pipes.Fs.Dir.{find_in_dir}
use so_server_and_pipes.Fs.Dir.Map.{dir_value}
use so_server_and_pipes.Fs.Dir.Lookup.{IsDirectory, base, find_in_dir-ok, find_in_dir-value}
use so_server_and_pipes.Fs.Ops.{
  slash, tfs_open, tfs_unlink, open_path, open_found, valid_pathname, tfs_lookup, unlink_found,
  unlink_path, has_flag, tfs_o_creat, unlock_return,
}
use so_server_and_pipes.Fs.Ops.Handles.{held, released, locked-free}

-- The root directory is in block `b`.
pub record IsRooted (s : Fs) (b : ℕ) : Type 0 where
  pub directory : IsDirectory s 0 b
  pub exists : 0 < s.fs_params.max_inode_count
  pub in_use : s.freeinode_ts 0 ≡ taken

-- What the root directory maps a name to.
abbrev pub root_value : Fs → ℕ → List ℕ → ℤ
root_value s b n = dir_value s.fs_data (base s b) (max_dir_entries s) n

-- The path of a name.
abbrev pub path_of : List ℕ → Option (List ℕ)
path_of n = some (slash ∷ n)

pub held-IsRooted : {s : Fs} {b : ℕ} → IsRooted s b → IsRooted (held s) b
held-IsRooted h = record {
  directory = record {
    node = h.directory.node;
    block = h.directory.block;
    valid = h.directory.valid;
    sized = h.directory.sized;
  };
  exists = h.exists;
  in_use = h.in_use;
}

pub path_of-valid : (n : List ℕ) → 0 < length n → valid_pathname (path_of n) ≡ true
unfolding valid_pathname
path_of-valid n some_byte = ground arith

inode_get-root : {s : Fs} {b : ℕ} → IsRooted s b → inode_get (pos 0) s ≡ ok 0 s
unfolding inode_get
inode_get-root {s} h = rw (lt→ltb 0 s.fs_params.max_inode_count h.exists)

module _ {s : Fs} {b : ℕ} (h : IsRooted s b) (n : List ℕ) (some_byte : 0 < length n) where
  tfs_lookup-eq : tfs_lookup (path_of n) 0 s ≡ ok (root_value s b n) s
  unfolding tfs_lookup
  tfs_lookup-eq = rw (path_of-valid n some_byte) (find_in_dir-ok n _ h.directory refl)

  open_path-eq :
      (mode : ℕ) → open_path (path_of n) mode s ≡ open_found 0 n mode (root_value s b n) s
  unfolding open_path
  open_path-eq mode = rw (inode_get-root h, tfs_lookup-eq)

  unlink_path-eq : unlink_path (path_of n) s ≡ unlink_found 0 n (root_value s b n) s
  unfolding unlink_path
  unlink_path-eq = rw (inode_get-root h, tfs_lookup-eq)

module _ {s : Fs} {b : ℕ} (h : IsRooted s b) (free_mutex : s.library_mutex ≡ false) (n : List ℕ)
    (some_byte : 0 < length n) where
  pub tfs_open-found :
      (mode : ℕ) → tfs_open (path_of n) mode s ≡ open_found 0 n mode (root_value s b n) (held s)
  unfolding tfs_open
  tfs_open-found mode =
      locked-free _ s free_mutex
      ∙ ap (λ v. (if not v then unlock_return minus_one else open_path (path_of n) mode) (held s))
          (path_of-valid n some_byte)
      ∙ open_path-eq (held-IsRooted h) n some_byte mode

  pub tfs_unlink-found : tfs_unlink (path_of n) s ≡ unlink_found 0 n (root_value s b n) (held s)
  unfolding tfs_unlink
  tfs_unlink-found =
      locked-free _ s free_mutex
      ∙ ap (λ v. (if not v then unlock_return minus_one else unlink_path (path_of n)) (held s))
          (path_of-valid n some_byte)
      ∙ unlink_path-eq (held-IsRooted h) n some_byte

  -- Without TFS_O_CREAT, `tfs_open` of a name that is not found fails, and changes nothing; so does
  -- `tfs_unlink`.
  pub tfs_open-missing :
      (mode : ℕ)
      → find_in_dir 0 n s ≡ ok minus_one s
      → has_flag mode tfs_o_creat ≡ false
      → (tfs_open (path_of n) mode s ≡ ok minus_one s) × (tfs_unlink (path_of n) s ≡ ok minus_one s)
  unfolding open_found unlink_found unlock_return
  tfs_open-missing mode missing no_create =
      let e = find_in_dir-value n h.directory missing in
      (
        tfs_open-found mode ∙ rw (e, no_create) (ap (ok minus_one) (released s free_mutex)),
        tfs_unlink-found ∙ rw e (ap (ok minus_one) (released s free_mutex)),
      )
