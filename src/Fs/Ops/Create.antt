-- ===== src/Fs/Ops/Create.antt =====
-- tfs_open of a name that the root directory does not have, under TFS_O_CREAT.
use so_server_and_pipes.Base.{
  ℕ, ◌^◌, ◌<◌, ◌≡◌, refl, ap, ◌∙◌, ◌≢◌, true, false, Option, none, some, List, arith, update, ℤ,
  pos, minus_one, is_minus_one, find_below, IsFirst, int_of_size-pos, update_self, update-ne,
}
use so_server_and_pipes.Base.{find_below-some}
use so_server_and_pipes.Fs.Exec.{Fs, ok, is_free, taken}
use so_server_and_pipes.Fs.Inodes.{max_dir_entries}
use so_server_and_pipes.Fs.OpenFiles.{add_to_open_file_table}
use so_server_and_pipes.Fs.Memory.{IsText}
use so_server_and_pipes.Fs.Dir.{find_in_dir, is_vacant, fill_entry}
use so_server_and_pipes.Fs.Dir.Entries.{IsName}
use so_server_and_pipes.Fs.Dir.Map.{WfDir, dir_find}
use so_server_and_pipes.Fs.Dir.WellFormed.{fill_entry-WfDir}
use so_server_and_pipes.Fs.Dir.Naming.{fill_entry-dir_value, fill_entry-dir_value_ne}
use so_server_and_pipes.Fs.Dir.Lookup.{
  IsDirectory, base, find_in_dir-ok, find_in_dir-value, add_dir_entry-eq, dir_value-none,
}
use so_server_and_pipes.Fs.Init.{first_free_inode, with_file, inode_create-file}
use so_server_and_pipes.Fs.Ops.{
  tfs_open, open_found, open_new, finish_open, has_flag, tfs_o_creat, unlock_return,
}
use so_server_and_pipes.Fs.Ops.Handles.{held, IsHandle}
use so_server_and_pipes.Fs.Ops.Paths.{IsRooted, root_value, path_of, held-IsRooted, tfs_open-found}

-- The first free entry of the open file table, if there is one.
abbrev pub first_free_handle : Fs → Option ℕ
first_free_handle s =
    find_below (λ i. is_free (s.free_open_file_entries i)) s.fs_params.max_open_files_count

-- The state after entry `k` of the open file table is opened on inode `p`, and the mutex is given
-- back.
abbrev pub with_handle : Fs → ℕ → ℕ → ℕ → Fs
with_handle s k p offset = record s {
  free_open_file_entries = update s.free_open_file_entries k taken;
  open_file_table = update s.open_file_table k (record { of_inumber = pos p; of_offset = offset });
  library_mutex = false;
}

pub finish_open-eq :
    (s : Fs) (p k offset : ℕ)
    → first_free_handle s ≡ some k
    → k < 2 ^ 31
    → finish_open (pos p) offset s ≡ ok (pos k) (with_handle s k p offset)
unfolding finish_open add_to_open_file_table unlock_return
finish_open-eq s p k offset found small = let e = int_of_size-pos k small in ground arith

-- An inode that is free is not the root directory's.
pub free_is_not_root : {s : Fs} {b p : ℕ} → IsRooted s b → first_free_inode s ≡ some p → p ≢ 0
free_is_not_root {s} {p} h found e =
    let passes = (find_below-some (λ i. is_free (s.freeinode_ts i)) _ p found).passes in
    let moved = ap (λ z. is_free (s.freeinode_ts z)) e in let used = ap is_free h.in_use in cc

pub with_file-IsDirectory :
    {s : Fs} {b : ℕ} (p : ℕ) → p ≢ 0 → IsDirectory s 0 b → IsDirectory (with_file s p) 0 b
with_file-IsDirectory {s} p apart dir = record {
  node = ap (λ x. x.i_node_type) (update-ne s.inode_table p _ 0 apart) ∙ dir.node;
  block = ap (λ x. x.i_data_block) (update-ne s.inode_table p _ 0 apart) ∙ dir.block;
  valid = dir.valid;
  sized = dir.sized;
}

-- The state after name `n` is given to inode `p` in entry `i` of the directory in block `b`.
abbrev pub with_name : Fs → ℕ → ℕ → ℕ → List ℕ → Fs
with_name s b p i n = record (with_file s p) {
  fs_data = fill_entry s.fs_data (base s b) i n (pos p);
}

module _ {s : Fs} {b : ℕ} (h : IsRooted s b) (n : List ℕ) (name : IsName n) (p i k : ℕ)
    (inode : first_free_inode s ≡ some p) (small : p < 2 ^ 31)
    (vacant : find_below (is_vacant s.fs_data (base s b)) (max_dir_entries s) ≡ some i)
    (handle : first_free_handle s ≡ some k) (small_handle : k < 2 ^ 31) where
  open_new-eq : open_new 0 n s ≡ ok (pos k) (with_handle (with_name s b p i n) k p 0)
  unfolding open_new
  open_new-eq = rw (
    inode_create-file s p inode small,
    add_dir_entry-eq (with_file-IsDirectory p (free_is_not_root h inode) h.directory) n (pos p) i
        name vacant,
    finish_open-eq (with_name s b p i n) p k 0 handle small_handle,
  )

  pub open_found-new :
      (mode : ℕ)
      → has_flag mode tfs_o_creat ≡ true
      → open_found 0 n mode minus_one s ≡ ok (pos k) (with_handle (with_name s b p i n) k p 0)
  unfolding open_found
  open_found-new mode create = rw create open_new-eq

-- With an inode, an entry of the root directory and an entry of the open file table free,
-- `tfs_open` under TFS_O_CREAT of a new name makes an empty file in the first free inode and
-- returns the first free entry of the open file table as a handle on it. The name leads to the
-- inode then, any other name leads where it led, and the root directory stays well formed. All
-- blocks together have fewer than 2 ^ 64 bytes.
pub tfs_open-new :
    {s : Fs} {b : ℕ} (n t : List ℕ) (mode p i k : ℕ) (w : ℤ)
    → s.library_mutex ≡ false
    → s.fs_params.block_size < 2 ^ 63
    → IsRooted s b
    → WfDir s.fs_data (base s b) (max_dir_entries s)
    → IsName n
    → find_in_dir 0 n s ≡ ok minus_one s
    → has_flag mode tfs_o_creat ≡ true
    → first_free_inode s ≡ some p
    → p < 2 ^ 31
    → find_below (is_vacant s.fs_data (base s b)) (max_dir_entries s) ≡ some i
    → first_free_handle s ≡ some k
    → k < 2 ^ 31
    → IsText t
    → t ≢ n
    → find_in_dir 0 t s ≡ ok w s
    → (s' : Fs) × (tfs_open (path_of n) mode s ≡ ok (pos k) s')
      × (s'.library_mutex ≡ false)
      × IsHandle s' k p
      × ((s'.inode_table p).i_size ≡ 0)
      × (s'.freeinode_ts p ≡ taken)
      × IsRooted s' b
      × (find_in_dir 0 n s' ≡ ok (pos p) s')
      × (find_in_dir 0 t s' ≡ ok w s')
      × WfDir s'.fs_data (base s' b) (max_dir_entries s')
tfs_open-new {s} {b} n t mode p i k w free_mutex small_block h wf name missing create inode small
      vacant handle small_handle text other seen =
    (
      s',
      tfs_open-found h free_mutex n name.some_byte mode
          ∙ ap (λ v. open_found 0 n mode v (held s)) absent
          ∙ open_found-new (held-IsRooted h) n name p i k inode small vacant handle small_handle
              mode create,
      refl,
      opened,
      ap (λ x. x.i_size) (update_self s.inode_table p _),
      update_self s.freeinode_ts p taken,
      rooted,
      find_in_dir-ok n (pos p) dir' (
          fill_entry-dir_value m (base s b) slots i first.below n (pos p) name (omega arith) refl
            unnamed),
      find_in_dir-ok t w dir' (
          fill_entry-dir_value_ne m (base s b) slots i first.below n (pos p) name t text other
            first.passes
          ∙ find_in_dir-value t h.directory seen),
      fill_entry-WfDir wf i n (pos p) name (omega arith) refl unnamed,
    )
  where
    m : ℕ → ℕ
    m = s.fs_data

    slots : ℕ
    slots = max_dir_entries s

    s' : Fs
    s' = with_handle (with_name s b p i n) k p 0

    absent : root_value s b n ≡ minus_one
    absent = find_in_dir-value n h.directory missing

    unnamed : dir_find m (base s b) slots n ≡ none
    unnamed = dir_value-none m (base s b) slots n (ap is_minus_one absent)

    first : IsFirst (is_vacant m (base s b)) 0 slots i
    first = find_below-some _ _ i vacant

    dir' : IsDirectory s' 0 b
    dir' =
        let d = with_file-IsDirectory p (free_is_not_root h inode) h.directory in
        record { node = d.node; block = d.block; valid = d.valid; sized = d.sized }

    rooted : IsRooted s' b
    rooted = record {
      directory = dir';
      exists = h.exists;
      in_use = update-ne s.freeinode_ts p taken 0 (free_is_not_root h inode) ∙ h.in_use;
    }

    opened : IsHandle s' k p
    opened = record {
      in_use = (find_below-some _ _ k handle).below;
      open_entry = update_self s.free_open_file_entries k taken;
      file = ap (λ e. e.of_inumber) (update_self s.open_file_table k _);
      exists = (find_below-some _ _ p inode).below;
      offset_in = omega (
        arith,
        ap (λ e. e.of_offset)
            (update_self s.open_file_table k (record { of_inumber = pos p; of_offset = 0 })),
      );
      small = small_block;
    }
