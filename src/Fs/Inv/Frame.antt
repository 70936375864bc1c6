-- ===== src/Fs/Inv/Frame.antt =====
-- The names of the root directory after a change outside its block.
use so_server_and_pipes.Base.{
  find_from-congr, ℕ, ◌+◌, ◌*◌, ◌/◌, ◌≤◌, ◌<◌, ◌≡◌, sym, ◌∙◌, inl, inr, List, arith,
}
use so_server_and_pipes.Base.{find_below-some}
use so_server_and_pipes.Fs.Exec.{Params, AllocationState}
use so_server_and_pipes.Fs.Memory.{Bytes, Same}
use so_server_and_pipes.Fs.Dir.Entries.{
  SameEntry, is_vacant-SameEntry, is_entry_of-SameEntry, has_name-SameEntry, load_int-SameEntry,
}
use so_server_and_pipes.Fs.Dir.Map.{WfDir, dir_find, dir_value}
use so_server_and_pipes.Fs.Dir.WellFormed.{Named-SameEntry}
use so_server_and_pipes.Fs.Dir.Lookup.{dir_value-same}
use so_server_and_pipes.Fs.Inv.{WfNames, entry_count, name_value}

-- Two memories that agree on the root directory's block.
module _ {m m' : Bytes} (d k : ℕ) (same : (j : ℕ) → j < k → SameEntry m' m d j) where
  Same-find : (t : List ℕ) → dir_find m' d k t ≡ dir_find m d k t
  Same-find t =
      find_from-congr _ _ k 0 (λ j lo hi. is_entry_of-SameEntry m' m d j (same j (omega arith)) t)

  Same-value : (t : List ℕ) → dir_value m' d k t ≡ dir_value m d k t
  Same-value t =
      dir_value-same m m' d k t (Same-find t)
        (λ j found. load_int-SameEntry m' m d j (same j (find_below-some _ k j found).below))

  Same-WfDir : WfDir m d k → WfDir m' d k
  Same-WfDir w = record {
    named = λ j lt used.
        let (n, name, at) = w.named j lt (sym (is_vacant-SameEntry m' m d j (same j lt)) ∙ used) in
        (n, name, Named-SameEntry m m' d j n name (same j lt) at);
    blank = λ j t lt ht vacant.
        has_name-SameEntry m' m d j (same j lt) t ht.fits
        ∙ w.blank j t lt ht (sym (is_vacant-SameEntry m' m d j (same j lt)) ∙ vacant);
    unique = λ i j t li lj ht ei ej.
        w.unique i j t li lj ht (sym (is_entry_of-SameEntry m' m d i (same i li) t) ∙ ei)
          (sym (is_entry_of-SameEntry m' m d j (same j lj) t) ∙ ej);
  }

-- The entries of a directory are within its block.
entry_in_block : (size j : ℕ) → j < size / 44 → 44 * j + 44 ≤ size
entry_in_block size j lt = omega arith

-- A change outside the root directory's block leaves the names as they are.
module _ (g : Params) {m m' : Bytes} (b : ℕ)
    (same : Same m' m (b * g.block_size) g.block_size) where
  same_entries : (j : ℕ) → j < entry_count g → SameEntry m' m (b * g.block_size) j
  same_entries j lt x lo hi =
      let bound = entry_in_block g.block_size j lt in same x (omega arith) (omega arith)

  pub kept-name_value : (t : List ℕ) → name_value g m' b t ≡ name_value g m b t
  kept-name_value = Same-value (b * g.block_size) (entry_count g) same_entries

  pub kept-WfNames : {inodes : ℕ → AllocationState} → WfNames g inodes m b → WfNames g inodes m' b
  kept-WfNames w = record {
    directory = Same-WfDir (b * g.block_size) (entry_count g) same_entries w.directory;
    target = λ t ht. elim (w.target t ht) [
      | inl e ↦ inl (kept-name_value t ∙ e)
      | inr (q, e, l) ↦ inr (q, kept-name_value t ∙ e, l)
    ];
    one_name = λ t u q ht hu et eu.
        w.one_name t u q ht hu (sym (kept-name_value t) ∙ et) (sym (kept-name_value u) ∙ eu);
    named = λ q l. let (t, ht, e) = w.named q l in (t, ht, kept-name_value t ∙ e);
  }
