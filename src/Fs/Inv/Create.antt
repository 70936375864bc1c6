-- ===== src/Fs/Inv/Create.antt =====
-- tfs_open of a name that is not there returns and keeps the invariant.
use so_server_and_pipes.Base.{
  ℕ, ◌^◌, ◌<◌, ◌≡◌, refl, sym, ap, ◌∙◌, ◌≢◌, inl, inr, false, none, some, List, arith, ltb, length,
  update, ℤ, pos, minus_one, find_below, Option-cases, update_self,
}
use so_server_and_pipes.Base.{subst, find_below-some}
use native.Mathlib.Decide.{dec_lt}
use so_server_and_pipes.Fs.Exec.{Fs, Inode, taken, free, is_free, t_file, ok}
use so_server_and_pipes.Fs.Memory.{IsText}
use so_server_and_pipes.Fs.Inodes.{max_dir_entries, inode_alloc, inode_create}
use so_server_and_pipes.Fs.Dir.{is_vacant, add_dir_entry}
use so_server_and_pipes.Fs.Dir.Entries.{IsName}
use so_server_and_pipes.Fs.Dir.Lookup.{IsDirectory, base, add_dir_entry-eq, add_dir_entry-full}
use so_server_and_pipes.Fs.Init.{first_free_inode, with_file, inode_create-file}
use so_server_and_pipes.Fs.Ops.{open_new, unlock_return}
use so_server_and_pipes.Fs.Ops.Paths.{root_value}
use so_server_and_pipes.Fs.Ops.Create.{with_name, with_file-IsDirectory}
use so_server_and_pipes.Fs.Ops.Unlink.{without, IsFile, inode_delete-eq}
use so_server_and_pipes.Fs.Inv.{Good}
use so_server_and_pipes.Fs.Inv.Nodes.{made-WfNodes, freed-WfNodes}
use so_server_and_pipes.Fs.Inv.Tables.{update-update, update-same, used_apart, is_free-free}
use so_server_and_pipes.Fs.Inv.Names.{filled-WfNames}
use so_server_and_pipes.Fs.Inv.Handles.{made-WfHandles, freed-WfHandles, free-NotOpen}
use so_server_and_pipes.Fs.Inv.Returns.{Returns}
use so_server_and_pipes.Fs.Inv.Open.{finish_open-Returns}

inode_create-none : (s : Fs) → first_free_inode s ≡ none → inode_create t_file s ≡ ok minus_one s
unfolding inode_create inode_alloc
inode_create-none s full = ground arith

-- A name that is too long for an entry, or a directory that has no vacant one.
add_dir_entry-long :
    (s : Fs) (q : ℕ) (n : List ℕ) (v : ℤ) → 39 < length n → add_dir_entry q n v s ≡ ok minus_one s
unfolding add_dir_entry
add_dir_entry-long s q n v long = ground arith

-- `inode_delete` of the file that has just been made.
module _ (s : Fs) {b : ℕ} (g : Good s b) (p : ℕ) (found : first_free_inode s ≡ some p) where
  below : p < s.fs_params.max_inode_count
  below = (find_below-some (λ i. is_free (s.freeinode_ts i)) _ p found).below

  pub unused : s.freeinode_ts p ≡ free
  unused = is_free-free _ (find_below-some (λ i. is_free (s.freeinode_ts i)) _ p found).passes

  pub small : p < 2 ^ 31
  small = omega (arith, below, g.geometry.few_inodes)

  pub not_root : p ≢ 0
  not_root = used_apart s.freeinode_ts unused g.nodes_ok.root_in_use

  made-IsFile : IsFile (with_file s p) p 0
  made-IsFile = record {
    exists = below;
    in_use = update_self s.freeinode_ts p taken;
    stored = inl (ap (λ x. x.i_size) (update_self s.inode_table p _));
  }

  given_back : update (update s.freeinode_ts p taken) p free ≡ s.freeinode_ts
  given_back = update-update s.freeinode_ts p taken free ∙ update-same s.freeinode_ts p free unused

  without_made-Good : Good (without (with_file s p) p) b
  without_made-Good =
      let v : Inode = record { i_node_type = t_file; i_size = 0; i_data_block = minus_one } in
      let empty = ap (λ x. x.i_size) (update_self s.inode_table p v) in
      let nothing : ltb 0 (update s.inode_table p v p).i_size ≡ false = ground arith in
      record {
        geometry = g.geometry;
        nodes_ok =
            rw nothing (freed-WfNodes (made-WfNodes g.nodes_ok p v unused refl) p not_root empty);
        names_ok = rw given_back (g.names_ok);
        handles_ok =
            freed-WfHandles (made-WfHandles g.handles_ok p v unused) p
              (free-NotOpen g.handles_ok p unused);
      }

  -- The call of `add_dir_entry` fails: the inode is given back.
  open_new-failed :
      (n : List ℕ)
      → add_dir_entry 0 n (pos p) (with_file s p) ≡ ok minus_one (with_file s p)
      → Returns b (open_new 0 n s)
  unfolding open_new unlock_return
  open_new-failed n failed = (
    minus_one,
    record (without (with_file s p) p) { library_mutex = false },
    rw (inode_create-file s p found small, failed, inode_delete-eq made-IsFile),
    refl,
    without_made-Good,
  )

  pub directory : IsDirectory (with_file s p) 0 b
  directory = with_file-IsDirectory {s = s} p not_root (record {
    node = g.nodes_ok.root_node;
    block = g.nodes_ok.root_block;
    valid = g.nodes_ok.root_valid;
    sized = g.geometry.small_data;
  })

  module _ (n : List ℕ) (name : IsName n) (missing : root_value s b n ≡ minus_one) (i : ℕ)
      (vacant : find_below (is_vacant s.fs_data (base s b)) (max_dir_entries s) ≡ some i) where
    with_name-Good : Good (with_name s b p i n) b
    with_name-Good =
        let first = find_below-some (is_vacant s.fs_data (base s b)) _ i vacant in
        let v : Inode = record { i_node_type = t_file; i_size = 0; i_data_block = minus_one } in
        record {
          geometry = g.geometry;
          nodes_ok = made-WfNodes g.nodes_ok p v unused refl;
          names_ok =
              filled-WfNames g.names_ok n p i name missing below not_root unused small first.below
                first.passes;
          handles_ok = made-WfHandles g.handles_ok p v unused;
        }

    -- The call of `add_dir_entry` succeeds: the file is opened.
    open_new-named : Returns b (open_new 0 n s)
    unfolding open_new
    open_new-named =
        subst (Returns b)
          (sym (
            rw (
              inode_create-file s p found small,
              add_dir_entry-eq directory n (pos p) i name vacant,
            )))
          (finish_open-Returns (with_name s b p i n) p 0 with_name-Good
            (record {
              not_root = not_root;
              exists = below;
              in_use = update_self s.freeinode_ts p taken;
            })
            (omega arith))

-- `tfs_open` of a new name, after the lookup.
pub open_new-Returns :
    (s : Fs) {b : ℕ} (n : List ℕ)
    → Good s b
    → IsText n
    → 0 < length n
    → root_value s b n ≡ minus_one
    → Returns b (open_new 0 n s)
unfolding open_new unlock_return
open_new-Returns s {b} n g text some_byte missing = elim (Option-cases (first_free_inode s)) [
  | inl full ↦
      (minus_one, record s { library_mutex = false }, rw (inode_create-none s full), refl, g)
  | inr (p, found) ↦ elim (dec_lt 39 (length n)) [
    | yes long ↦ open_new-failed s g p found n (add_dir_entry-long (with_file s p) 0 n (pos p) long)
    | no short ↦
        let name : IsName n = record { text = text; some_byte = some_byte; fits = omega arith } in
        elim (Option-cases (find_below (is_vacant s.fs_data (base s b)) (max_dir_entries s))) [
          | inl e ↦
              open_new-failed s g p found n
                (add_dir_entry-full (directory s g p found) n (pos p) name e)
          | inr (i, vacant) ↦ open_new-named s g p found n name missing i vacant
        ]
  ]
]
