-- ===== src/Fs/Inv/Returns.antt =====
-- The invariant on states: what it says of handles and of the root directory, and tfs_close.
use so_server_and_pipes.Base.{
  ltb→le, ℕ, ◌<◌, ◌≡◌, refl, ap, ◌∙◌, ◌⊎◌, inl, inr, false, [], arith, ltb, ℤ, pos, negsuc,
  minus_one, Bool-cases, ltb→lt,
}
use so_server_and_pipes.Fs.Exec.{Fs, AllocationState, taken, free, ok, Run}
use so_server_and_pipes.Fs.Exec.{valid_file_handle}
use so_server_and_pipes.Fs.Ops.{tfs_close}
use so_server_and_pipes.Fs.Ops.Handles.{IsHandle, HasBlock, node, entry}
use so_server_and_pipes.Fs.Ops.Paths.{IsRooted}
use so_server_and_pipes.Fs.Ops.Close.{IsNoHandle, operations-no_handle, closed}
use so_server_and_pipes.Fs.Ops.Append.{tfs_close-done}
use so_server_and_pipes.Fs.Inv.{Good, IsLive, IsOpenOn, Stores, IsDataBlock}
use so_server_and_pipes.Fs.Inv.Handles.{closed-WfHandles}

-- The run returns a value; then the mutex is free and the invariant holds.
abbrev pub Returns {ℓ} : {A : Type ℓ} → ℕ → Run A → Type ℓ
Returns {A = A} b r = (a : A) × (s' : Fs) × (r ≡ ok a s') × (s'.library_mutex ≡ false) × Good s' b

module _ (s : Fs) {b : ℕ} (g : Good s b) where
  pub Good-IsRooted : IsRooted s b
  Good-IsRooted = record {
    directory = record {
      node = g.nodes_ok.root_node;
      block = g.nodes_ok.root_block;
      valid = g.nodes_ok.root_valid;
      sized = g.geometry.small_data;
    };
    exists = g.nodes_ok.root_exists;
    in_use = g.nodes_ok.root_in_use;
  }

  pub Good-IsHandle :
      {i p : ℕ}
      → i < s.fs_params.max_open_files_count
      → s.free_open_file_entries i ≡ taken
      → IsOpenOn s.fs_params s.inode_table s.freeinode_ts (entry s i) p
      → IsHandle s i p
  Good-IsHandle {p} lt used o = record {
    in_use = lt;
    open_entry = used;
    file = o.file;
    exists = o.live.exists;
    offset_in = omega (arith, o.inside, g.nodes_ok.fits p o.live);
    small = g.geometry.small_block;
  }

  -- A number is an open handle, or none.
  pub find-IsHandle :
      (fhandle : ℤ)
      → IsNoHandle s fhandle
        ⊎ ((i : ℕ) × (p : ℕ) × (fhandle ≡ pos i)
            × IsHandle s i p
            × IsOpenOn s.fs_params s.inode_table s.freeinode_ts (entry s i) p)
  unfolding valid_file_handle
  find-IsHandle (negsuc n) = inl (inl tt)
  find-IsHandle (pos i) = elim (Bool-cases (ltb i s.fs_params.max_open_files_count)) [
    | inr f ↦ inl (inl (ltb→le _ _ f))
    | inl t ↦ elim (AllocationState-cases (s.free_open_file_entries i)) [
      | inl e ↦ inl (inr e)
      | inr used ↦
          let lt = ltb→lt _ _ t in
          let (p, o) = g.handles_ok.opened i lt used in inr (i, p, refl, Good-IsHandle lt used o, o)
    ]
  ]
    where
      AllocationState-cases : (a : AllocationState) → (a ≡ free) ⊎ (a ≡ taken)
      AllocationState-cases free = inl refl
      AllocationState-cases taken = inr refl

  -- A file is empty or has a block.
  pub file-cases :
      (p : ℕ)
      → IsLive s.fs_params s.freeinode_ts p
      → ((node s p).i_size ≡ 0)
        ⊎ ((c : ℕ) × Stores s.inode_table p c
            × HasBlock s p c
            × IsDataBlock s.fs_params s.free_blocks b c)
  file-cases p l = elim (g.nodes_ok.stored p l) [
    | inl e ↦ inl e
    | inr (c, st, db) ↦
        inr
          (c, st, record { block = st.block; valid = db.valid; sized = g.geometry.small_data }, db)
  ]

  -- `tfs_close` returns, and keeps the invariant.
  pub tfs_close-Returns : (fhandle : ℤ) → s.library_mutex ≡ false → Returns b (tfs_close fhandle s)
  tfs_close-Returns fhandle free_mutex = elim (find-IsHandle fhandle) [
    | inl bad ↦
        (minus_one, s, (operations-no_handle s fhandle [] 0 free_mutex bad).0, free_mutex, g)
    | inr (i, p, e, h, o) ↦ (
      pos 0,
      closed s i,
      ap (λ f. tfs_close f s) e ∙ tfs_close-done free_mutex h,
      refl,
      record {
        geometry = g.geometry;
        nodes_ok = g.nodes_ok;
        names_ok = g.names_ok;
        handles_ok = closed-WfHandles g.handles_ok i;
      },
    )
  ]
