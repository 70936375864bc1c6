-- ===== src/Fs/Inv/Handles.antt =====
-- What the operations do to the open file table.
use so_server_and_pipes.Base.{
  ℕ, ◌≤◌, ◌<◌, ◌≡◌, sym, ap, ◌∙◌, ◌≢◌, inl, inr, arith, update, pos, update-ne,
}
use so_server_and_pipes.Base.{subst}
use so_server_and_pipes.Fs.Exec.{Params, Inode, OpenFileEntry, AllocationState, taken, free}
use so_server_and_pipes.Fs.Inv.{IsLive, IsOpenOn, WfHandles}
use so_server_and_pipes.Fs.Inv.Tables.{
  update-cases, free-cases, taken-IsLive, freed-IsLive, used_apart,
}

-- No entry of the open file table in use is open on file `p`.
abbrev pub NotOpen : Params → (ℕ → OpenFileEntry) → (ℕ → AllocationState) → ℕ → Type 0
NotOpen g entries handles p =
    (i : ℕ) → i < g.max_open_files_count → handles i ≡ taken → (entries i).of_inumber ≢ pos p

-- An entry that stays open, where its file stays in use and is no shorter.
pub IsOpenOn-kept :
    {g : Params} {nodes nodes' : ℕ → Inode} {inodes inodes' : ℕ → AllocationState}
    {e : OpenFileEntry} {p : ℕ}
    → IsLive g inodes' p
    → (nodes p).i_size ≤ (nodes' p).i_size
    → IsOpenOn g nodes inodes e p
    → IsOpenOn g nodes' inodes' e p
IsOpenOn-kept l le o = record { live = l; file = o.file; inside = omega (arith, o.inside, le) }

module _ {g : Params} {nodes : ℕ → Inode} {inodes : ℕ → AllocationState}
    {entries : ℕ → OpenFileEntry} {handles : ℕ → AllocationState}
    (w : WfHandles g nodes inodes entries handles) where
  -- A free inode is taken, and changed.
  pub made-WfHandles :
      (p : ℕ) (v : Inode)
      → inodes p ≡ free
      → WfHandles g (update nodes p v) (update inodes p taken) entries handles
  made-WfHandles p v unused = record {
    opened = λ i lt used.
        let (q, o) = w.opened i lt used in
        let ne = used_apart inodes unused o.live.in_use in
        (
          q,
          IsOpenOn-kept (taken-IsLive p o.live)
              (omega (arith, ap (λ x. x.i_size) (update-ne nodes p v q ne))) o,
        );
  }

  -- No handle is open on a free inode.
  pub free-NotOpen : (p : ℕ) → inodes p ≡ free → NotOpen g entries handles p
  free-NotOpen p unused i lt used e =
      let (q, o) = w.opened i lt used in
      let there = o.file in let same : p ≡ q = cc in used_apart inodes unused o.live.in_use same

  -- A file that is not open is freed.
  pub freed-WfHandles :
      (p : ℕ)
      → NotOpen g entries handles p
      → WfHandles g nodes (update inodes p free) entries handles
  freed-WfHandles p closed = record {
    opened = λ i lt used.
        let (q, o) = w.opened i lt used in
        (
          q,
          IsOpenOn-kept (freed-IsLive p (λ e. closed i lt used (o.file ∙ sym (ap pos e))) o.live)
              (omega arith) o,
        );
  }

  -- The size of a file that is not open changes.
  pub resized-WfHandles :
      (p : ℕ) (v : Inode)
      → NotOpen g entries handles p
      → WfHandles g (update nodes p v) inodes entries handles
  resized-WfHandles p v closed = record {
    opened = λ i lt used.
        let (q, o) = w.opened i lt used in
        let same = update-ne nodes p v q (λ e. closed i lt used (o.file ∙ sym (ap pos e))) in
        (q, IsOpenOn-kept o.live (omega (arith, ap (λ x. x.i_size) same)) o);
  }

  -- A file grows.
  pub grown-WfHandles :
      (p : ℕ) (v : Inode)
      → (nodes p).i_size ≤ v.i_size
      → WfHandles g (update nodes p v) inodes entries handles
  grown-WfHandles p v le = record {
    opened = λ i lt used. let (q, o) = w.opened i lt used in (q, IsOpenOn-kept o.live (larger q) o);
  }
    where
      larger : (q : ℕ) → (nodes q).i_size ≤ (update nodes p v q).i_size
      larger q = elim (update-cases nodes p v q) [
        | inl (e, here) ↦ omega (arith, ap (λ x. x.i_size) here, ap (λ z. (nodes z).i_size) e, le)
        | inr (ne, same) ↦ omega (arith, ap (λ x. x.i_size) same)
      ]

  -- An entry is opened.
  pub opened-WfHandles :
      (k p : ℕ) (e : OpenFileEntry)
      → IsOpenOn g nodes inodes e p
      → WfHandles g nodes inodes (update entries k e) (update handles k taken)
  opened-WfHandles k p e o = record {
    opened = λ i lt used. elim (update-cases entries k e i) [
      | inl (same, here) ↦ (p, subst (λ z. IsOpenOn g nodes inodes z p) (sym here) o)
      | inr (ne, same) ↦
          let (q, o') = w.opened i lt (sym (update-ne handles k taken i ne) ∙ used) in
          (q, subst (λ z. IsOpenOn g nodes inodes z q) (sym same) o')
    ];
  }

  -- An entry is closed.
  pub closed-WfHandles : (k : ℕ) → WfHandles g nodes inodes entries (update handles k free)
  closed-WfHandles k = record { opened = λ i lt used. w.opened i lt (free-cases handles k used).1 }

  -- The offset of an entry that is open on `p` moves within the file.
  pub moved-WfHandles :
      (k p : ℕ) (e : OpenFileEntry)
      → IsOpenOn g nodes inodes e p
      → WfHandles g nodes inodes (update entries k e) handles
  moved-WfHandles k p e o = record {
    opened = λ i lt used. elim (update-cases entries k e i) [
      | inl (same, here) ↦ (p, subst (λ z. IsOpenOn g nodes inodes z p) (sym here) o)
      | inr (ne, same) ↦
          let (q, o') = w.opened i lt used in
          (q, subst (λ z. IsOpenOn g nodes inodes z q) (sym same) o')
    ];
  }
