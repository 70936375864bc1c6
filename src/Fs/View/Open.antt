-- ===== src/Fs/View/Open.antt =====
-- tfs_open of a file that exists, as an operation on the map from names to bytes.
use so_server_and_pipes.Base.{
  ℕ, ◌^◌, ◌≤◌, ◌≡◌, refl, sym, ap, ◌∙◌, inl, inr, false, some, List, [], arith, if◌then◌else◌, ℤ,
  pos, minus_one, Bool-cases, Option-cases, update_self, update-ne,
}
use so_server_and_pipes.Base.{find_below-some}
use so_server_and_pipes.Fs.Exec.{Fs, Params, Inode, is_free, ok}
use so_server_and_pipes.Fs.Dir.Entries.{IsName}
use so_server_and_pipes.Fs.Ops.{
  tfs_open, open_found, open_existing, finish_open, truncate, has_flag, tfs_o_trunc, tfs_o_append,
}
use so_server_and_pipes.Fs.Ops.Handles.{node, held}
use so_server_and_pipes.Fs.Ops.Paths.{path_of, root_value, tfs_open-found}
use so_server_and_pipes.Fs.Ops.Create.{first_free_handle, with_handle, finish_open-eq}
use so_server_and_pipes.Fs.Ops.Truncate.{emptied, truncate-eq}
use so_server_and_pipes.Fs.Inv.{Good, IsLive}
use so_server_and_pipes.Fs.Inv.Open.{finish_open-none, inode_get-live}
use so_server_and_pipes.Fs.Inv.Returns.{Good-IsRooted, file-cases}
use so_server_and_pipes.Fs.View.{file_bytes, contents, bytes_of}
use so_server_and_pipes.Fs.View.Frame.{inode_bytes, inode_bytes-empty}
use so_server_and_pipes.Fs.View.Write.{IsChanged}
use so_server_and_pipes.Fs.View.Refine.{some-inj}
use so_server_and_pipes.Fs.View.Unlink.{contents-root_value}

-- The end of `tfs_open` changes the open file table at most.
abbrev pub SameContents : Fs → Fs → Type 0
SameContents s s' = (b : ℕ) (t : List ℕ) → contents s' b t ≡ contents s b t

pub finish_open-SameContents :
    (s : Fs) (p offset : ℕ)
    → s.fs_params.max_open_files_count ≤ 2 ^ 31
    → (r : ℤ) × (s' : Fs) × (finish_open (pos p) offset s ≡ ok r s') × SameContents s s'
finish_open-SameContents s p offset few = elim (Option-cases (first_free_handle s)) [
  | inl full ↦ (
    minus_one,
    record s { library_mutex = false },
    finish_open-none s (pos p) offset full,
    λ b t. refl,
  )
  | inr (k, found) ↦
      let first = find_below-some (λ i. is_free (s.free_open_file_entries i)) _ k found in
      (
        pos k,
        with_handle s k p offset,
        finish_open-eq s p k offset found (omega (arith, first.below, few)),
        λ b t. refl,
      )
]

-- What a file's bytes are after it is opened in a mode.
abbrev pub opened_bytes : ℕ → List ℕ → List ℕ
opened_bytes mode old = if has_flag mode tfs_o_trunc then [] else old

module _ (s : Fs) {b : ℕ} (g : Good s b) (n : List ℕ) (name : IsName n) (p : ℕ)
    (here : root_value s b n ≡ pos p) (live : IsLive s.fs_params s.freeinode_ts p) where
  emptied-IsChanged : (c : ℕ) → IsChanged s (emptied s p c) b n (some [])
  emptied-IsChanged c =
      let v = record (node s p) { i_size = 0 } in
      let shown = inode_bytes s.fs_data s.fs_params.block_size in
      record {
        changed =
            ap (bytes_of (emptied s p c)) here
            ∙ ap (λ (x : Inode). some (shown x)) (update_self s.inode_table p v)
            ∙ ap some (inode_bytes-empty s.fs_data s.fs_params.block_size v refl);
        others = λ t ht other. elim (g.names_ok.target t ht) [
          | inl e ↦ ap (bytes_of (emptied s p c)) e ∙ sym (ap (bytes_of s) e)
          | inr (q, e, live') ↦
              ap (bytes_of (emptied s p c)) e
              ∙ ap (λ (x : Inode). some (shown x))
                  (update-ne s.inode_table p v q
                    (λ same. other (g.names_ok.one_name t n q ht name e (here ∙ ap pos same))))
              ∙ sym (ap (bytes_of s) e)
        ];
      }

  truncate-IsChanged :
      (mode : ℕ)
      → (s' : Fs) × (truncate p mode s ≡ ok tt s')
        × (s'.fs_params ≡ s.fs_params)
        × IsChanged s s' b n (some (opened_bytes mode (file_bytes s p)))
  unfolding truncate
  truncate-IsChanged mode = elim (Bool-cases (has_flag mode tfs_o_trunc)) [
    | inr f ↦ (
      s,
      rw f,
      refl,
      record { changed = ap (bytes_of s) here ∙ rw f; others = λ t ht other. refl },
    )
    | inl t ↦ elim (file-cases s g p live) [
      | inl e ↦ (
        s,
        rw (t, e),
        refl,
        record {
          changed =
              ap (bytes_of s) here
              ∙ ap some (inode_bytes-empty s.fs_data s.fs_params.block_size (node s p) e)
              ∙ rw t;
          others = λ t ht other. refl;
        },
      )
      | inr (c, st, hb, db) ↦
          (emptied s p c, truncate-eq mode t st.some_bytes hb, refl, rw t (emptied-IsChanged c))
    ]
  ]

  open_existing-IsChanged :
      (mode : ℕ)
      → (r : ℤ) × (s' : Fs) × (open_existing (pos p) mode s ≡ ok r s')
        × IsChanged s s' b n (some (opened_bytes mode (file_bytes s p)))
  unfolding open_existing
  open_existing-IsChanged mode =
      let (s', cut, same, h) = truncate-IsChanged mode in
      let offset = if has_flag mode tfs_o_append then (node s' p).i_size else 0 in
      let (r, s'', done, kept) =
        finish_open-SameContents s' p offset (
          omega
            (arith, g.geometry.few_handles, ap (λ (x : Params). x.max_open_files_count) same)) in
      (
        r,
        s'',
        rw (inode_get-live s g p live, cut) done,
        record {
          changed = kept b n ∙ h.changed;
          others = λ t ht other. kept b t ∙ h.others t ht other;
        },
      )

-- `tfs_open` of a name that stands for bytes changes no other name. The name stands for no bytes
-- under TFS_O_TRUNC, and for the same bytes else. It is so too where no handle is free, and
-- `tfs_open` returns -1.
pub contents-tfs_open :
    (s : Fs) {b : ℕ} (n : List ℕ) (mode : ℕ) (old : List ℕ)
    → s.library_mutex ≡ false
    → Good s b
    → IsName n
    → contents s b n ≡ some old
    → (r : ℤ) × (s' : Fs) × (tfs_open (path_of n) mode s ≡ ok r s')
      × IsChanged s s' b n (some (opened_bytes mode old))
unfolding open_found
contents-tfs_open s {b} n mode old free_mutex g name shown =
    let (p, here, live) = contents-root_value s n old g name shown in
    let whole : file_bytes s p ≡ old = some-inj (sym (ap (bytes_of s) here) ∙ shown) in
    let (r, s', done, h) = open_existing-IsChanged (held s) g n name p here live mode in
    (
      r,
      s',
      tfs_open-found (Good-IsRooted s g) free_mutex n name.some_byte mode
          ∙ ap (λ (v : ℤ). open_found 0 n mode v (held s)) here
          ∙ done,
      record {
        changed = h.changed ∙ ap (λ (l : List ℕ). some (opened_bytes mode l)) whole;
        others = h.others;
      },
    )
