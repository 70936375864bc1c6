-- ===== src/Fs/Inv/Start.antt =====
-- tfs_init establishes the invariant, and tfs_open keeps it.
use so_server_and_pipes.Base.{
  ℕ, ◌*◌, ◌/◌, ◌<◌, ◌≡◌, refl, sym, ap, ◌∙◌, ◌≢◌, inl, inr, true, false, Option, some, List, arith,
  update, ℤ, pos, minus_one, Bool-cases, update-ne,
}
use so_server_and_pipes.Base.{subst}
use so_server_and_pipes.Fs.Exec.{Fs, Params, AllocationState, taken, is_free, ok}
use so_server_and_pipes.Fs.Inodes.{entry_at}
use so_server_and_pipes.Fs.Setup.{Mallocs, all_allocated, or_else, all_free, tfs_init}
use so_server_and_pipes.Fs.Dir.Blank.{clear_entries-dir_find, clear_entries-WfDir}
use so_server_and_pipes.Fs.Dir.Lookup.{dir_value-absent}
use so_server_and_pipes.Fs.Init.{Geometry, all_free-free, root_made, tfs_init-eq}
use so_server_and_pipes.Fs.Ops.{
  tfs_open, open_found, unlock_return, has_flag, tfs_o_creat, tfs_o_trunc,
}
use so_server_and_pipes.Fs.Ops.Handles.{held}
use so_server_and_pipes.Fs.Ops.Paths.{tfs_open-found}
use so_server_and_pipes.Fs.Inv.{Good, IsLive, name_value}
use so_server_and_pipes.Fs.Inv.Open.{open_existing-Returns}
use so_server_and_pipes.Fs.Inv.Create.{open_new-Returns}
use so_server_and_pipes.Fs.Inv.Paths.{IsPath, Unopened, path-Parts, text-cases, tfs_open-invalid}
use so_server_and_pipes.Fs.Inv.Returns.{Returns, Good-IsRooted}

-- Of a table that is free but for index 0, no other index is in use.
only_zero :
    (t : ℕ → AllocationState) (n i : ℕ)
    → i < n
    → 0 ≢ i
    → update (all_free t n) 0 taken i ≡ taken
    → ⊥
only_zero t n i lt ne used =
    let e = sym (update-ne (all_free t n) 0 taken i ne ∙ all_free-free t n i lt) ∙ used in
    let wrong = ap is_free e in cc

-- What `tfs_init` relies on: malloc succeeds, and each name of the root directory's block begins
-- with a NUL in the memory that it returns; the tables and the blocks are as `Geometry` says.
pub record IsFresh (a : Mallocs) (params : Params) (s : Fs) : Type 0 where
  pub unallocated : s.allocated ≡ false
  pub free_mutex : s.library_mutex ≡ false
  pub enough : all_allocated a ≡ true
  pub some_inode : 0 < params.max_inode_count
  pub some_block : 0 < params.max_block_count
  pub geometry : Geometry params
  pub nul : (j : ℕ) → j < params.block_size / 44 → or_else a.fs_data s.fs_data (entry_at 0 j) ≡ 0

module _ (a : Mallocs) (params : Params) (s : Fs) (h : IsFresh a params s) where
  no_file : (p : ℕ) → IsLive params (root_made a params s).freeinode_ts p → ⊥
  no_file p l =
      only_zero (or_else a.freeinode_ts s.freeinode_ts) params.max_inode_count p l.exists
        (λ e. l.not_root (sym e)) l.in_use

  no_name :
      (t : List ℕ) (v : ℤ)
      → name_value params (root_made a params s).fs_data 0 t ≡ v
      → v ≡ minus_one
  no_name t v e =
      sym e
      ∙ dir_value-absent _ (0 * params.block_size) (params.block_size / 44) t
          (clear_entries-dir_find (0 * params.block_size) _ _ t)

  root_made-Good : Good (root_made a params s) 0
  root_made-Good = record {
    geometry = h.geometry;
    nodes_ok = record {
      root_exists = h.some_inode;
      root_in_use = refl;
      root_node = refl;
      root_block = refl;
      root_valid = h.some_block;
      root_taken = refl;
      fits = λ p l. absurd (no_file p l);
      stored = λ p l. absurd (no_file p l);
      apart = λ p q c lp lq sp sq. absurd (no_file p lp);
      owner = λ c db. absurd (
          only_zero (or_else a.free_blocks s.free_blocks) params.max_block_count c db.valid
            db.not_root db.in_use);
    };
    names_ok = record {
      directory =
          clear_entries-WfDir (0 * params.block_size) _ _
            (λ j lt. ap (or_else a.fs_data s.fs_data) (omega arith) ∙ h.nul j lt);
      target = λ t ht. inl (no_name t _ refl);
      one_name = λ t u p ht hu et eu. let wrong = no_name t (pos p) et in cc;
      named = λ p l. absurd (no_file p l);
    };
    handles_ok = record {
      opened = λ i lt used.
          let wrong = ap is_free (
            sym (
              all_free-free (or_else a.free_open_file_entries s.free_open_file_entries)
                params.max_open_files_count i lt)
            ∙ used) in
          cc;
    };
  }

  -- `tfs_init` succeeds and establishes the invariant.
  pub tfs_init-Good :
      (s' : Fs) × (tfs_init a (some params) s ≡ ok (pos 0) s')
      × (s'.library_mutex ≡ false)
      × Good s' 0
  tfs_init-Good = (
    root_made a params s,
    tfs_init-eq a params s h.unallocated h.enough h.some_inode h.some_block h.geometry,
    h.free_mutex,
    root_made-Good,
  )

-- `tfs_open` returns and keeps the invariant, if no handle is open on a file that it truncates.
pub tfs_open-Returns :
    (s : Fs) {b : ℕ} (path : Option (List ℕ)) (mode : ℕ)
    → s.library_mutex ≡ false
    → Good s b
    → IsPath path
    → (has_flag mode tfs_o_trunc ≡ true → Unopened s b path)
    → Returns b (tfs_open path mode s)
unfolding open_found unlock_return
tfs_open-Returns s {b} path mode free_mutex g is_path closed = elim (path-Parts path is_path) [
  | inl invalid ↦ tfs_open-invalid s path free_mutex g invalid mode
  | inr (n, e, text, some_byte) ↦
      let found = tfs_open-found (Good-IsRooted s g) free_mutex n some_byte mode in
      subst (λ (x : Option (List ℕ)). Returns b (tfs_open x mode s)) (sym e)
        (subst (Returns b) (sym found) (elim (text-cases s n g text) [
          | inl missing ↦
              subst (λ (v : ℤ). Returns b (open_found 0 n mode v (held s))) (sym missing)
                (elim (Bool-cases (has_flag mode tfs_o_creat)) [
                  | inl t ↦ rw t (open_new-Returns (held s) n g text some_byte missing)
                  | inr f ↦ rw f (minus_one, record s { library_mutex = false }, refl, refl, g)
                ])
          | inr (name, (p, here, live)) ↦
              subst (λ (v : ℤ). Returns b (open_found 0 n mode v (held s))) (sym here)
                (open_existing-Returns (held s) g p live mode (λ t. closed t n p e here))
        ]))
]
