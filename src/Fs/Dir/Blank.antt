-- ===== src/Fs/Dir/Blank.antt =====
-- The loop of inode_create over the entries of a new directory.
use so_server_and_pipes.Base.{
  ℕ, zero, suc, ◌+◌, ◌≤◌, ◌<◌, ◌≡◌, refl, ◌∙◌, ◌⊎◌, inl, true, false, none, List, [], ◌∷◌, arith,
  minus_one, find_from-none,
}
use native.Mathlib.Decide.{ℕ_discrete}
use so_server_and_pipes.Base.{subst}
use so_server_and_pipes.Fs.Memory.{Bytes, int_bytes, store_int, load_int, write_bytes-outside}
use so_server_and_pipes.Fs.Memory.Frame.{load_int-Same}
use so_server_and_pipes.Fs.Memory.RoundTrip.{load_int-store_int}
use so_server_and_pipes.Fs.Inodes.{entry_at, d_inumber_at, clear_entries}
use so_server_and_pipes.Fs.Dir.{is_vacant, has_name}
use so_server_and_pipes.Fs.Dir.Entries.{IsName}
use so_server_and_pipes.Fs.Dir.Map.{WfDir, dir_find, vacant-is_entry_of}

-- Address `x` lies in no inumber of the entries of the directory at `d` from entry `i` on.
abbrev pub Clear : ℕ → ℕ → ℕ → Type 0
Clear d i x = (j : ℕ) → i ≤ j → (x < d_inumber_at d j) ⊎ (d_inumber_at d j + 4 ≤ x)

-- The loop writes to the inumbers alone.
pub clear_entries-Clear :
    (d k i : ℕ) (m : Bytes) (x : ℕ) → Clear d i x → clear_entries d k i m x ≡ m x
unfolding clear_entries store_int
clear_entries-Clear d zero i m x h = refl
clear_entries-Clear d (suc k) i m x h =
    clear_entries-Clear d k (i + 1) _ x (λ j lt. h j (omega arith))
    ∙ write_bytes-outside m (d_inumber_at d i) (int_bytes minus_one) x (h i (omega arith))

-- It sets each to -1.
pub clear_entries-load :
    (d k i : ℕ) (m : Bytes) (j : ℕ)
    → i ≤ j
    → j < i + k
    → load_int (clear_entries d k i m) (d_inumber_at d j) ≡ minus_one
unfolding clear_entries
clear_entries-load d zero i m j lo hi = absurd (omega arith)
clear_entries-load d (suc k) i m j lo hi = elim (ℕ_discrete i j) [
  | yes e ↦
      subst (λ z. load_int (clear_entries d (suc k) i m) (d_inumber_at d z) ≡ minus_one) e
        (load_int-Same _ (store_int m (d_inumber_at d i) minus_one) _
            (λ x lo' hi'. clear_entries-Clear d k (i + 1) _ x (λ j' lt. inl (omega arith)))
          ∙ load_int-store_int m _ minus_one (omega arith))
  | no ne ↦ clear_entries-load d k (i + 1) _ j (omega arith) (omega arith)
]

-- A directory that the loop has cleared has no name, and is well formed where the names in it begin
-- with a NUL.
module _ (d k : ℕ) (m : Bytes) where
  pub clear_entries-is_vacant : (j : ℕ) → j < k → is_vacant (clear_entries d k 0 m) d j ≡ true
  unfolding is_vacant
  clear_entries-is_vacant j lt = rw (clear_entries-load d k 0 m j (omega arith) (omega arith))

  pub clear_entries-dir_find : (t : List ℕ) → dir_find (clear_entries d k 0 m) d k t ≡ none
  clear_entries-dir_find t =
      find_from-none _ k 0
        (λ j lo hi. vacant-is_entry_of _ d j t (clear_entries-is_vacant j (omega arith)))

  nul-has_name :
      (m' : Bytes) (t : List ℕ) (j : ℕ)
      → IsName t
      → m' (entry_at d j) ≡ 0
      → has_name m' d t j ≡ false
  nul-has_name m' [] j name e = absurd (omega (arith, name.some_byte))
  nul-has_name m' (c ∷ cs) j name e = let (some_char, rest) = name.text in ground arith

  pub clear_entries-WfDir :
      ((j : ℕ) → j < k → m (entry_at d j) ≡ 0) → WfDir (clear_entries d k 0 m) d k
  clear_entries-WfDir nul = record {
    named = λ j lt used. let free = clear_entries-is_vacant j lt in cc;
    blank = λ j t lt name free.
        nul-has_name _ t j name
          (clear_entries-Clear d k 0 m (entry_at d j) (λ j' lt'. ground arith) ∙ nul j lt);
    unique = λ i j t li lj name ei ej.
        let free = vacant-is_entry_of _ d i t (clear_entries-is_vacant i li) in cc;
  }
