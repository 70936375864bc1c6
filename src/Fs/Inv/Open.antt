-- ===== src/Fs/Inv/Open.antt =====
-- tfs_open of a file that exists returns and keeps the invariant.
use so_server_and_pipes.Base.{
  ℕ, ◌≤◌, ◌<◌, ◌≡◌, refl, sym, inl, inr, true, false, none, arith, if◌then◌else◌, ℤ, pos, minus_one,
  Bool-cases, Option-cases, lt→ltb,
}
use so_server_and_pipes.Base.{subst, find_below-some}
use so_server_and_pipes.Fs.Exec.{Fs, is_free, ok}
use so_server_and_pipes.Fs.Exec.{valid_inumber}
use so_server_and_pipes.Fs.Inodes.{inode_get}
use so_server_and_pipes.Fs.OpenFiles.{add_to_open_file_table}
use so_server_and_pipes.Fs.Ops.{
  finish_open, truncate, open_existing, unlock_return, has_flag, tfs_o_trunc, tfs_o_append,
}
use so_server_and_pipes.Fs.Ops.Handles.{node}
use so_server_and_pipes.Fs.Ops.Create.{first_free_handle, with_handle, finish_open-eq}
use so_server_and_pipes.Fs.Ops.Truncate.{emptied, truncate-eq}
use so_server_and_pipes.Fs.Inv.{Good, IsLive}
use so_server_and_pipes.Fs.Inv.Blocks.{emptied-WfNodes}
use so_server_and_pipes.Fs.Inv.Handles.{NotOpen, opened-WfHandles, resized-WfHandles}
use so_server_and_pipes.Fs.Inv.Returns.{Returns, file-cases}

pub finish_open-none :
    (s : Fs) (inum : ℤ) (offset : ℕ)
    → first_free_handle s ≡ none
    → finish_open inum offset s ≡ ok minus_one (record s { library_mutex = false })
unfolding finish_open add_to_open_file_table unlock_return
finish_open-none s inum offset full = ground arith

-- The end of `tfs_open` returns and keeps the invariant: it opens a handle, if one is free.
pub finish_open-Returns :
    (s : Fs) {b : ℕ} (p offset : ℕ)
    → Good s b
    → IsLive s.fs_params s.freeinode_ts p
    → offset ≤ (node s p).i_size
    → Returns b (finish_open (pos p) offset s)
finish_open-Returns s p offset g live inside = elim (Option-cases (first_free_handle s)) [
  | inl full ↦ (
    minus_one,
    record s { library_mutex = false },
    finish_open-none s (pos p) offset full,
    refl,
    g,
  )
  | inr (k, found) ↦
      let first = find_below-some (λ i. is_free (s.free_open_file_entries i)) _ k found in
      (
        pos k,
        with_handle s k p offset,
        finish_open-eq s p k offset found (omega (arith, first.below, g.geometry.few_handles)),
        refl,
        record {
          geometry = g.geometry;
          nodes_ok = g.nodes_ok;
          names_ok = g.names_ok;
          handles_ok =
              opened-WfHandles g.handles_ok k p _
                (record { live = live; file = refl; inside = inside });
        },
      )
]

module _ (s : Fs) {b : ℕ} (g : Good s b) (p : ℕ) (live : IsLive s.fs_params s.freeinode_ts p) where
  pub emptied-Good :
      {c : ℕ}
      → 0 < (node s p).i_size
      → (node s p).i_data_block ≡ pos c
      → NotOpen s.fs_params s.open_file_table s.free_open_file_entries p
      → Good (emptied s p c) b
  emptied-Good some_bytes block closed = record {
    geometry = g.geometry;
    nodes_ok =
        emptied-WfNodes g.nodes_ok live (record { some_bytes = some_bytes; block = block })
          (record (node s p) { i_size = 0 }) refl;
    names_ok = g.names_ok;
    handles_ok = resized-WfHandles g.handles_ok p (record (node s p) { i_size = 0 }) closed;
  }

  -- The truncation keeps the invariant, if it does anything only where no handle is open.
  pub truncate-Good :
      (mode : ℕ)
      → (has_flag mode tfs_o_trunc ≡ true
          → NotOpen s.fs_params s.open_file_table s.free_open_file_entries p)
      → (s' : Fs) × (truncate p mode s ≡ ok tt s')
        × Good s' b
        × IsLive s'.fs_params s'.freeinode_ts p
  unfolding truncate
  truncate-Good mode closed = elim (Bool-cases (has_flag mode tfs_o_trunc)) [
    | inr f ↦ (s, rw f, g, live)
    | inl t ↦ elim (file-cases s g p live) [
      | inl e ↦ (s, rw (t, e), g, live)
      | inr (c, st, hb, db) ↦ (
        emptied s p c,
        truncate-eq mode t st.some_bytes hb,
        emptied-Good st.some_bytes st.block (closed t),
        live,
      )
    ]
  ]

  pub inode_get-live : inode_get (pos p) s ≡ ok p s
  unfolding inode_get valid_inumber
  inode_get-live = rw (lt→ltb p s.fs_params.max_inode_count live.exists)

  -- `tfs_open` of a file that exists, after the lookup.
  pub open_existing-Returns :
      (mode : ℕ)
      → (has_flag mode tfs_o_trunc ≡ true
          → NotOpen s.fs_params s.open_file_table s.free_open_file_entries p)
      → Returns b (open_existing (pos p) mode s)
  unfolding open_existing
  open_existing-Returns mode closed =
      let (s', cut, g', live') = truncate-Good mode closed in
      let offset = if has_flag mode tfs_o_append then (node s' p).i_size else 0 in
      let inside : offset ≤ (node s' p).i_size = ground arith in
      subst (Returns b) (sym (rw (inode_get-live, cut)))
        (finish_open-Returns s' p offset g' live' inside)
