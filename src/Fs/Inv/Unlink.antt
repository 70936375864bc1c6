-- ===== src/Fs/Inv/Unlink.antt =====
-- tfs_unlink returns and keeps the invariant, where no handle is open on the file.
use so_server_and_pipes.Base.{
  ℕ, ◌+◌, ◌*◌, ◌≤◌, ◌<◌, ◌≡◌, refl, sym, ap, ◌∙◌, ◌≢◌, ◌⊎◌, inl, inr, false, Option, List, arith,
  ltb, update, ℤ, pos, minus_one, is_minus_one, lt→ltb,
}
use so_server_and_pipes.Base.{subst}
use so_server_and_pipes.Fs.Exec.{Fs, free, ok}
use so_server_and_pipes.Fs.Memory.{Bytes}
use so_server_and_pipes.Fs.Inodes.{dir_entry_size, max_dir_entries}
use so_server_and_pipes.Fs.Dir.Entries.{IsName}
use so_server_and_pipes.Fs.Dir.Map.{WfDir}
use so_server_and_pipes.Fs.Dir.Naming.{clear_dir_entry-value}
use so_server_and_pipes.Fs.Dir.Lookup.{IsDirectory, base}
use so_server_and_pipes.Fs.Ops.{tfs_unlink, unlink_found, unlock_return}
use so_server_and_pipes.Fs.Ops.Handles.{held, node, held-HasBlock}
use so_server_and_pipes.Fs.Ops.Paths.{path_of, root_value, tfs_unlink-found}
use so_server_and_pipes.Fs.Ops.Unlink.{without, blocks_without, IsFile, unlink_found-eq}
use so_server_and_pipes.Fs.Inv.{Good, IsLive, WfNodes}
use so_server_and_pipes.Fs.Inv.Nodes.{freed-WfNodes, deleted-WfNodes}
use so_server_and_pipes.Fs.Inv.Names.{erased-WfNames}
use so_server_and_pipes.Fs.Inv.Handles.{NotOpen, freed-WfHandles}
use so_server_and_pipes.Fs.Inv.Returns.{Returns, Good-IsRooted, file-cases}
use so_server_and_pipes.Fs.Inv.Paths.{IsPath, Unopened, path-Parts, text-cases, tfs_unlink-invalid}

-- The state after inode `p` is deleted, and its name.
abbrev pub unlinked : Fs → ℕ → Bytes → Fs
unlinked s p m = record (without s p) { fs_data = m; library_mutex = false }

module _ (s : Fs) {b : ℕ} (g : Good s b) (p : ℕ) (live : IsLive s.fs_params s.freeinode_ts p) where
  without-WfNodes :
      WfNodes s.fs_params s.inode_table (update s.freeinode_ts p free) (blocks_without s p) b
  without-WfNodes = elim (file-cases s g p live) [
    | inl e ↦
        let nothing : ltb 0 (node s p).i_size ≡ false = ground arith in
        rw nothing (freed-WfNodes g.nodes_ok p live.not_root e)
    | inr (c, st, hb, db) ↦
        rw (lt→ltb 0 _ st.some_bytes, st.block) (deleted-WfNodes g.nodes_ok live st)
  ]

  live-IsFile : (c : ℕ) × IsFile (held s) p c
  live-IsFile = elim (file-cases s g p live) [
    | inl e ↦ (0, record { exists = live.exists; in_use = live.in_use; stored = inl e })
    | inr (c, st, hb, db) ↦
        (c, record { exists = live.exists; in_use = live.in_use; stored = inr (held-HasBlock hb) })
  ]

  -- `tfs_unlink` of a name in use.
  module _ (n : List ℕ) (name : IsName n) (free_mutex : s.library_mutex ≡ false)
      (here : root_value s b n ≡ pos p) where
    directory : IsDirectory (without (held s) p) 0 b
    directory = record {
      node = g.nodes_ok.root_node;
      block = g.nodes_ok.root_block;
      valid = g.nodes_ok.root_valid;
      sized = g.geometry.small_data;
    }

    -- The state that it leaves, in which no name but `n` leads elsewhere.
    pub tfs_unlink-names :
        (m : Bytes) × (tfs_unlink (path_of n) s ≡ ok (pos 0) (unlinked s p m))
        × (root_value (unlinked s p m) b n ≡ minus_one)
        × ((t : List ℕ) → IsName t → t ≢ n → root_value (unlinked s p m) b t ≡ root_value s b t)
        × WfDir m (base s b) (max_dir_entries s)
        × ((x : ℕ)
            → (x < base s b) ⊎ (base s b + dir_entry_size * max_dir_entries s ≤ x)
            → m x ≡ s.fs_data x)
    tfs_unlink-names =
        let (m, done, gone, kept, wf, outside) =
          clear_dir_entry-value {s = without (held s) p} n directory g.names_ok.directory name
            (ap is_minus_one here) in
        let (c, file) = live-IsFile in
        (
          m,
          tfs_unlink-found (Good-IsRooted s g) free_mutex n name.some_byte
              ∙ ap (λ (v : ℤ). unlink_found 0 n v (held s)) here
              ∙ unlink_found-eq n m file done,
          gone,
          kept,
          wf,
          outside,
        )

    pub unlinked-Good :
        (m : Bytes)
        → NotOpen s.fs_params s.open_file_table s.free_open_file_entries p
        → root_value (unlinked s p m) b n ≡ minus_one
        → ((t : List ℕ) → IsName t → t ≢ n → root_value (unlinked s p m) b t ≡ root_value s b t)
        → WfDir m (base s b) (max_dir_entries s)
        → Good (unlinked s p m) b
    unlinked-Good m closed gone kept wf = record {
      geometry = g.geometry;
      nodes_ok = without-WfNodes;
      names_ok = erased-WfNames g.names_ok n p m name here gone kept wf;
      handles_ok = freed-WfHandles g.handles_ok p closed;
    }

-- `tfs_unlink` returns and keeps the invariant, if no handle is open on the file.
pub tfs_unlink-Returns :
    (s : Fs) {b : ℕ} (path : Option (List ℕ))
    → s.library_mutex ≡ false
    → Good s b
    → IsPath path
    → Unopened s b path
    → Returns b (tfs_unlink path s)
unfolding unlink_found unlock_return
tfs_unlink-Returns s {b} path free_mutex g is_path closed = elim (path-Parts path is_path) [
  | inl invalid ↦ tfs_unlink-invalid s path free_mutex g invalid
  | inr (n, e, text, some_byte) ↦
      subst (λ (x : Option (List ℕ)). Returns b (tfs_unlink x s)) (sym e)
        (elim (text-cases s n g text) [
          | inl missing ↦ (
            minus_one,
            record s { library_mutex = false },
            tfs_unlink-found (Good-IsRooted s g) free_mutex n some_byte
                ∙ ap (λ (v : ℤ). unlink_found 0 n v (held s)) missing,
            refl,
            g,
          )
          | inr (name, (p, here, live)) ↦
              let (m, done, gone, kept, wf, outside) =
                tfs_unlink-names s g p live n name free_mutex here in
              (
                pos 0,
                unlinked s p m,
                done,
                refl,
                unlinked-Good s g p live n name free_mutex here m (closed n p e here) gone kept wf,
              )
        ])
]
