-- ===== src/Fs/Inv/Read.antt =====
-- tfs_read returns and keeps the invariant.
use so_server_and_pipes.Base.{
  ℕ, ◌-◌, ◌≤◌, ◌≡◌, refl, sym, inl, inr, false, [], arith, ℤ, pos, minus_one, min,
}
use so_server_and_pipes.Base.{subst}
use native.Mathlib.Decide.{dec_lt}
use so_server_and_pipes.Fs.Exec.{Fs}
use so_server_and_pipes.Fs.Ops.{tfs_read}
use so_server_and_pipes.Fs.Ops.Handles.{IsHandle, node, entry}
use so_server_and_pipes.Fs.Ops.Read.{bytes_at, after_read, tfs_read-eq}
use so_server_and_pipes.Fs.Ops.Append.{tfs_read-none}
use so_server_and_pipes.Fs.Ops.Close.{operations-no_handle}
use so_server_and_pipes.Fs.Inv.{Good, IsOpenOn}
use so_server_and_pipes.Fs.Inv.Handles.{moved-WfHandles}
use so_server_and_pipes.Fs.Inv.Returns.{Returns, find-IsHandle, file-cases}

module _ (s : Fs) {b : ℕ} (g : Good s b) where
  after_read-Good :
      {i p : ℕ} (n : ℕ)
      → IsOpenOn s.fs_params s.inode_table s.freeinode_ts (entry s i) p
      → n ≤ (node s p).i_size - (entry s i).of_offset
      → Good (after_read s i n) b
  after_read-Good {i} {p} n o le = record {
    geometry = g.geometry;
    nodes_ok = g.nodes_ok;
    names_ok = g.names_ok;
    handles_ok =
        moved-WfHandles g.handles_ok i p _
          (record { live = o.live; file = o.file; inside = omega (arith, o.inside, le) });
  }

  module _ (len : ℕ) (free_mutex : s.library_mutex ≡ false) where
    tfs_read_open-Returns :
        {i p : ℕ}
        → IsHandle s i p
        → IsOpenOn s.fs_params s.inode_table s.freeinode_ts (entry s i) p
        → Returns b (tfs_read (pos i) len s)
    tfs_read_open-Returns {i} {p} h o =
        let fits = g.nodes_ok.fits p o.live in
        let n = min len ((node s p).i_size - (entry s i).of_offset) in
        elim (dec_lt 0 n) [
          | yes positive ↦ elim (file-cases s g p o.live) [
            | inl e ↦ absurd (omega (arith, e, positive))
            | inr (c, st, hb, db) ↦ (
              (pos n, bytes_at s i c n),
              after_read s i n,
              tfs_read-eq len free_mutex h hb o.inside fits positive,
              refl,
              after_read-Good n o (omega arith),
            )
          ]
          | no nothing ↦ (
            (pos 0, []),
            record s { library_mutex = false },
            tfs_read-none len free_mutex h o.inside (omega (arith, fits, g.geometry.small_block))
                (omega arith),
            refl,
            g,
          )
        ]

    -- `tfs_read` returns and keeps the invariant, whatever number it is given for a handle.
    pub tfs_read-Returns : (fhandle : ℤ) → Returns b (tfs_read fhandle len s)
    tfs_read-Returns fhandle = elim (find-IsHandle s g fhandle) [
      | inl bad ↦ (
        (minus_one, []),
        s,
        (operations-no_handle s fhandle [] len free_mutex bad).2,
        free_mutex,
        g,
      )
      | inr (i, p, e, h, o) ↦
          subst (λ f. Returns b (tfs_read f len s)) (sym e) (tfs_read_open-Returns h o)
    ]
