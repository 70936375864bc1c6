-- ===== src/Fs/View/Unlink.antt =====
-- tfs_unlink as an operation on the map from names to bytes.
use so_server_and_pipes.Base.{
  ℕ, ◌+◌, ◌*◌, ◌/◌, ◌≤◌, ◌<◌, ◌≡◌, refl, sym, ap, ◌∙◌, ◌⊎◌, inl, inr, false, none, some, List,
  arith, pos,
}
use so_server_and_pipes.Fs.Exec.{Fs, ok}
use so_server_and_pipes.Fs.Memory.{Bytes}
use so_server_and_pipes.Fs.Inodes.{dir_entry_size, max_dir_entries}
use so_server_and_pipes.Fs.Dir.Entries.{IsName}
use so_server_and_pipes.Fs.Dir.Lookup.{base}
use so_server_and_pipes.Fs.Ops.{tfs_unlink}
use so_server_and_pipes.Fs.Ops.Handles.{node}
use so_server_and_pipes.Fs.Ops.Isolation.{blocks_apart}
use so_server_and_pipes.Fs.Ops.Paths.{path_of, root_value}
use so_server_and_pipes.Fs.Inv.{Good, IsLive}
use so_server_and_pipes.Fs.Inv.Paths.{Unopened}
use so_server_and_pipes.Fs.Inv.Returns.{file-cases}
use so_server_and_pipes.Fs.Inv.Unlink.{unlinked, tfs_unlink-names, unlinked-Good}
use so_server_and_pipes.Fs.View.{file_bytes, contents, bytes_of}
use so_server_and_pipes.Fs.View.Frame.{inode_bytes, inode_bytes-kept}
use so_server_and_pipes.Fs.View.Write.{IsChanged}

entries_fit : (size : ℕ) → 44 * (size / 44) ≤ size
entries_fit size = omega arith

-- Memory `m` differs from that of the state in the entries of the root directory alone.
abbrev pub OutsideRoot : Fs → ℕ → Bytes → Type 0
OutsideRoot s b m =
    (x : ℕ)
    → (x < base s b) ⊎ (base s b + dir_entry_size * max_dir_entries s ≤ x)
    → m x ≡ s.fs_data x

-- The files' bytes stay as they are then.
pub outside-inode_bytes :
    (s : Fs) {b : ℕ} (m : Bytes) (q : ℕ)
    → Good s b
    → OutsideRoot s b m
    → IsLive s.fs_params s.freeinode_ts q
    → inode_bytes m s.fs_params.block_size (node s q) ≡ file_bytes s q
outside-inode_bytes s {b} m q g outside live =
    inode_bytes-kept s.fs_data m s.fs_params.block_size (node s q) (elim (file-cases s g q live) [
      | inl e ↦ inl e
      | inr (d, st, hb, db) ↦ inr (
        d,
        st.block,
        λ x lo hi. outside x (
            let apart =
              blocks_apart b d s.fs_params.block_size 0 s.fs_params.block_size 0 (node s q).i_size
                db.not_root (omega arith) (omega (arith, g.nodes_ok.fits q live)) in
            let fit = entries_fit s.fs_params.block_size in omega (arith, apart, fit, lo, hi)),
      )
    ])

-- A name that is known to stand for bytes leads to an inode.
pub contents-root_value :
    (s : Fs) {b : ℕ} (n old : List ℕ)
    → Good s b
    → IsName n
    → contents s b n ≡ some old
    → (p : ℕ) × (root_value s b n ≡ pos p) × IsLive s.fs_params s.freeinode_ts p
contents-root_value s n old g name shown = elim (g.names_ok.target n name) [
  | inl e ↦ let wrong = sym (ap (bytes_of s) e) ∙ shown in cc
  | inr there ↦ there
]

-- `tfs_unlink` of a name that stands for the bytes of a file on which no handle is open returns 0.
-- The name stands for nothing then, every other name for what it stood for, and the invariant holds.
pub contents-tfs_unlink :
    (s : Fs) {b : ℕ} (n old : List ℕ)
    → s.library_mutex ≡ false
    → Good s b
    → IsName n
    → contents s b n ≡ some old
    → Unopened s b (path_of n)
    → (s' : Fs) × (tfs_unlink (path_of n) s ≡ ok (pos 0) s') × IsChanged s s' b n none × Good s' b
contents-tfs_unlink s {b} n old free_mutex g name shown closed =
    let (p, here, live) = contents-root_value s n old g name shown in
    let (m, done, gone, kept, wf, outside) = tfs_unlink-names s g p live n name free_mutex here in
    (
      unlinked s p m,
      done,
      record {
        changed = ap (bytes_of (unlinked s p m)) gone;
        others = λ t ht other.
            ap (bytes_of (unlinked s p m)) (kept t ht other) ∙ elim (g.names_ok.target t ht) [
              | inl e ↦ ap (bytes_of (unlinked s p m)) e ∙ sym (ap (bytes_of s) e)
              | inr (q, e, live') ↦
                  ap (bytes_of (unlinked s p m)) e
                  ∙ ap some (outside-inode_bytes s m q g outside live')
                  ∙ sym (ap (bytes_of s) e)
            ];
      },
      unlinked-Good s g p live n name free_mutex here m (closed n p refl here) gone kept wf,
    )
