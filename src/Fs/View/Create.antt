-- ===== src/Fs/View/Create.antt =====
-- tfs_open of a new name, as an operation on the map from names to bytes.
use so_server_and_pipes.Base.{
  ℕ, ◌≡◌, refl, sym, ap, ◌∙◌, inl, inr, true, false, none, some, List, [], arith, ℤ, pos, minus_one,
  is_minus_one, find_below, IsFirst, update_self, update-ne,
}
use so_server_and_pipes.Base.{find_below-some}
use so_server_and_pipes.Fs.Exec.{Fs, Inode, t_file, ok}
use so_server_and_pipes.Fs.Inodes.{max_dir_entries}
use so_server_and_pipes.Fs.Dir.{is_vacant, fill_entry}
use so_server_and_pipes.Fs.Dir.Entries.{IsName, fill_entry-outside}
use so_server_and_pipes.Fs.Dir.Lookup.{base, add_dir_entry-eq, dir_value-none}
use so_server_and_pipes.Fs.Dir.Map.{dir_find}
use so_server_and_pipes.Fs.Dir.Naming.{fill_entry-dir_value, fill_entry-dir_value_ne}
use so_server_and_pipes.Fs.Init.{first_free_inode, inode_create-file}
use so_server_and_pipes.Fs.Ops.{tfs_open, open_found, open_new, has_flag, tfs_o_creat}
use so_server_and_pipes.Fs.Ops.Handles.{held}
use so_server_and_pipes.Fs.Ops.Paths.{path_of, root_value, tfs_open-found}
use so_server_and_pipes.Fs.Ops.Create.{with_name}
use so_server_and_pipes.Fs.Inv.{Good}
use so_server_and_pipes.Fs.Inv.Tables.{used_apart}
use so_server_and_pipes.Fs.Inv.Create.{directory, small, unused}
use so_server_and_pipes.Fs.Inv.Returns.{Good-IsRooted}
use so_server_and_pipes.Fs.View.{contents, bytes_of}
use so_server_and_pipes.Fs.View.Frame.{inode_bytes, inode_bytes-empty}
use so_server_and_pipes.Fs.View.Write.{IsChanged}
use so_server_and_pipes.Fs.View.Unlink.{OutsideRoot, outside-inode_bytes}
use so_server_and_pipes.Fs.View.Open.{finish_open-SameContents}

-- A name that stands for nothing leads nowhere.
contents-none :
    (s : Fs) {b : ℕ} (n : List ℕ)
    → Good s b
    → IsName n
    → contents s b n ≡ none
    → root_value s b n ≡ minus_one
contents-none s n g name shown = elim (g.names_ok.target n name) [
  | inl e ↦ e
  | inr (p, e, live) ↦ let wrong = sym (ap (bytes_of s) e) ∙ shown in cc
]

module _ (s : Fs) {b : ℕ} (g : Good s b) (n : List ℕ) (name : IsName n)
    (missing : root_value s b n ≡ minus_one) (p i : ℕ) (inode : first_free_inode s ≡ some p)
    (vacant : find_below (is_vacant s.fs_data (base s b)) (max_dir_entries s) ≡ some i) where
  first : IsFirst (is_vacant s.fs_data (base s b)) 0 (max_dir_entries s) i
  first = find_below-some _ _ i vacant

  absent : dir_find s.fs_data (base s b) (max_dir_entries s) n ≡ none
  absent = dir_value-none s.fs_data (base s b) (max_dir_entries s) n (ap is_minus_one missing)

  outside : OutsideRoot s b (fill_entry s.fs_data (base s b) i n (pos p))
  outside x out =
      fill_entry-outside s.fs_data (base s b) i n (pos p) name x (omega (arith, out, first.below))

  named : root_value (with_name s b p i n) b n ≡ pos p
  named =
      fill_entry-dir_value s.fs_data (base s b) (max_dir_entries s) i first.below n (pos p) name
        (small s g p inode) refl absent

  with_name-IsChanged : IsChanged s (with_name s b p i n) b n (some [])
  with_name-IsChanged =
      let s' = with_name s b p i n in
      let v : Inode = record { i_node_type = t_file; i_size = 0; i_data_block = minus_one } in
      let shown = inode_bytes s'.fs_data s.fs_params.block_size in
      record {
        changed =
            ap (bytes_of s') named
            ∙ ap (λ (x : Inode). some (shown x)) (update_self s.inode_table p v)
            ∙ ap some (inode_bytes-empty s'.fs_data s.fs_params.block_size v refl);
        others = λ t ht other.
            ap (bytes_of s') (
              fill_entry-dir_value_ne s.fs_data (base s b) (max_dir_entries s) i first.below n
                (pos p) name t ht.text other first.passes)
            ∙ elim (g.names_ok.target t ht) [
              | inl e ↦ ap (bytes_of s') e ∙ sym (ap (bytes_of s) e)
              | inr (q, e, live) ↦
                  ap (bytes_of s') e
                  ∙ ap (λ (x : Inode). some (shown x))
                      (update-ne s.inode_table p v q
                        (used_apart s.freeinode_ts (unused s g p inode) live.in_use))
                  ∙ ap some (outside-inode_bytes s s'.fs_data q g outside live)
                  ∙ sym (ap (bytes_of s) e)
            ];
      }

  open_new-IsChanged :
      (r : ℤ) × (s' : Fs) × (open_new 0 n s ≡ ok r s') × IsChanged s s' b n (some [])
  unfolding open_new
  open_new-IsChanged =
      let (r, s', done, kept) =
        finish_open-SameContents (with_name s b p i n) p 0 g.geometry.few_handles in
      let h = with_name-IsChanged in
      (
        r,
        s',
        rw
            (
              inode_create-file s p inode (small s g p inode),
              add_dir_entry-eq (directory s g p inode) n (pos p) i name vacant,
            )
            done,
        record {
          changed = kept b n ∙ h.changed;
          others = λ t ht other. kept b t ∙ h.others t ht other;
        },
      )

-- `tfs_open` under TFS_O_CREAT of a name that stands for nothing, where an inode and an entry of the
-- root directory are free, makes the name stand for no bytes and changes no other name. It is so too
-- where no handle is free, and `tfs_open` returns -1.
pub contents-tfs_open_new :
    (s : Fs) {b : ℕ} (n : List ℕ) (mode p i : ℕ)
    → s.library_mutex ≡ false
    → Good s b
    → IsName n
    → contents s b n ≡ none
    → has_flag mode tfs_o_creat ≡ true
    → first_free_inode s ≡ some p
    → find_below (is_vacant s.fs_data (base s b)) (max_dir_entries s) ≡ some i
    → (r : ℤ) × (s' : Fs) × (tfs_open (path_of n) mode s ≡ ok r s') × IsChanged s s' b n (some [])
unfolding open_found
contents-tfs_open_new s {b} n mode p i free_mutex g name shown create inode vacant =
    let missing = contents-none s n g name shown in
    let (r, s', done, h) = open_new-IsChanged (held s) g n name missing p i inode vacant in
    (
      r,
      s',
      tfs_open-found (Good-IsRooted s g) free_mutex n name.some_byte mode
          ∙ ap (λ (v : ℤ). open_found 0 n mode v (held s)) missing
          ∙ rw create done,
      record { changed = h.changed; others = h.others },
    )
