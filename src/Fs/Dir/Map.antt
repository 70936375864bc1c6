-- ===== src/Fs/Dir/Map.antt =====
-- A directory as a map from names to entries: what filling and erasing an entry do to a search.
use so_server_and_pipes.Base.{
  ℕ, ◌<◌, ◌≡◌, sym, ◌∙◌, ◌≢◌, inl, inr, true, false, Option, none, some, List, arith, ℤ, minus_one,
  is_minus_one, find_below, find_from-first, find_from-none, Bool-cases, IsInt,
}
use so_server_and_pipes.Base.{subst, find_from-congr, find_below-none}
use native.Mathlib.Decide.{ℕ_discrete}
use so_server_and_pipes.Fs.Memory.{Bytes, load_int, IsText}
use so_server_and_pipes.Fs.Memory.RoundTrip.{
  strn_eq_at_self, strn_eq_at-eq, str_eq_at_self, str_eq_at-eq,
}
use so_server_and_pipes.Fs.Inodes.{entry_at, d_inumber_at}
use so_server_and_pipes.Fs.Dir.{is_vacant, is_entry_of, erase_entry, fill_entry, has_name}
use so_server_and_pipes.Fs.Dir.Entries.{
  IsName, Named, is_entry_of-SameEntry, erase_entry-SameEntry, erase_entry-is_vacant,
  fill_entry-SameEntry, fill_entry-is_entry_of, fill_entry-other,
}

-- The entry of name `n` among the first `k` of the directory at address `d`.
abbrev pub dir_find : Bytes → ℕ → ℕ → List ℕ → Option ℕ
dir_find m d k n = find_below (is_entry_of m d n) k

-- The inumber under name `n`, or -1.
abbrev pub dir_value : Bytes → ℕ → ℕ → List ℕ → ℤ
dir_value m d k n = elim (dir_find m d k n) [
  | none ↦ minus_one
  | some i ↦ load_int m (d_inumber_at d i)
]

-- A directory is well formed: an entry in use has a name, no two have the same, and an entry that
-- is not in use has none of the names.
pub record WfDir (m : Bytes) (d k : ℕ) : Type 0 where
  pub named : (j : ℕ) → j < k → is_vacant m d j ≡ false → (n : List ℕ) × IsName n × Named m d j n
  pub blank :
      (j : ℕ) (t : List ℕ) → j < k → IsName t → is_vacant m d j ≡ true → has_name m d t j ≡ false
  pub unique :
      (i j : ℕ) (t : List ℕ)
      → i < k
      → j < k
      → IsName t
      → is_entry_of m d t i ≡ true
      → is_entry_of m d t j ≡ true
      → i ≡ j

pub vacant-is_entry_of :
    (m : Bytes) (d j : ℕ) (t : List ℕ) → is_vacant m d j ≡ true → is_entry_of m d t j ≡ false
unfolding is_entry_of
vacant-is_entry_of m d j t h = rw h

pub is_entry_of-vacant :
    (m : Bytes) (d j : ℕ) (t : List ℕ) → is_entry_of m d t j ≡ true → is_vacant m d j ≡ false
unfolding is_entry_of
is_entry_of-vacant m d j t h = ground arith

-- An entry in use that is named `n` answers to `t` just if `t` is `n`, by both comparisons.
module _ (m : Bytes) (d j : ℕ) (n t : List ℕ) (hn : IsName n) (ht : IsName t)
    (at : Named m d j n) where
  pub Named-is_entry_of : is_entry_of m d t j ≡ true → t ≡ n
  unfolding is_entry_of
  Named-is_entry_of e =
      strn_eq_at-eq m (entry_at d j) n t 40 hn.text ht.text (omega (arith, hn.fits)) at
        (ground arith)

  Named-has_name : has_name m d t j ≡ true → t ≡ n
  Named-has_name e = str_eq_at-eq m (entry_at d j) n t hn.text ht.text at e

  Named-same : is_vacant m d j ≡ false → has_name m d t j ≡ is_entry_of m d t j
  Named-same used = elim (Bool-cases (has_name m d t j)) [
    | inl e ↦ e ∙ sym (subst (λ z. is_entry_of m d z j ≡ true) (sym (Named-has_name e)) itself)
    | inr f ↦ elim (Bool-cases (is_entry_of m d t j)) [
      | inl e ↦
          subst (λ z. has_name m d z j ≡ true) (sym (Named-is_entry_of e))
            (str_eq_at_self m (entry_at d j) n at)
          ∙ sym e
      | inr f' ↦ f ∙ sym f'
    ]
  ]
    where
      itself : is_entry_of m d n j ≡ true
      itself = unfold is_entry_of in rw (used, strn_eq_at_self m (entry_at d j) n 40 at)

-- In a well-formed directory `clear_dir_entry` and `find_in_dir` look for the same entry.
pub has_name-is_entry_of :
    {m : Bytes} {d k : ℕ}
    → WfDir m d k
    → (t : List ℕ) → IsName t
    → (j : ℕ) → j < k
    → has_name m d t j ≡ is_entry_of m d t j
has_name-is_entry_of {m} {d} w t ht j lt = elim (Bool-cases (is_vacant m d j)) [
  | inl e ↦ w.blank j t lt ht e ∙ sym (vacant-is_entry_of m d j t e)
  | inr f ↦ let (n, hn, at) = w.named j lt f in Named-same m d j n t hn ht at f
]

pub has_name-dir_find :
    {m : Bytes} {d k : ℕ}
    → WfDir m d k
    → (t : List ℕ) → IsName t
    → find_below (has_name m d t) k ≡ dir_find m d k t
has_name-dir_find {k} w t ht =
    find_from-congr _ _ k 0 (λ j lo hi. has_name-is_entry_of w t ht j (omega arith))

module _ (m : Bytes) (d k i : ℕ) (lt : i < k) (n : List ℕ) (v : ℤ) (name : IsName n) where
  -- A new entry is found under its name.
  pub fill_entry-dir_find :
      IsInt v
      → is_minus_one v ≡ false
      → dir_find m d k n ≡ none
      → dir_find (fill_entry m d i n v) d k n ≡ some i
  fill_entry-dir_find range ne absent =
      find_from-first _ k 0 i (omega arith) (omega arith)
        (fill_entry-is_entry_of m d i n v name range ne)
        (λ j lo hi.
          is_entry_of-SameEntry _ m d j (fill_entry-SameEntry m d i n v name j (omega arith)) n
          ∙ find_below-none _ k absent j (omega arith))

  -- A new entry changes no other name.
  pub fill_entry-dir_find_ne :
      (t : List ℕ)
      → IsText t
      → t ≢ n
      → is_vacant m d i ≡ true
      → dir_find (fill_entry m d i n v) d k t ≡ dir_find m d k t
  fill_entry-dir_find_ne t text ne vacant = find_from-congr _ _ k 0 (λ j lo hi.
      elim (ℕ_discrete i j) [
        | yes e ↦
            subst (λ z. is_entry_of (fill_entry m d i n v) d t z ≡ is_entry_of m d t z) e
              (fill_entry-other m d i n v name t text ne ∙ sym (vacant-is_entry_of m d i t vacant))
        | no other ↦ is_entry_of-SameEntry _ m d j (fill_entry-SameEntry m d i n v name j other) t
      ])

module _ (m : Bytes) (d k i : ℕ) where
  -- Erasing the entry of a name takes the name away, if no other entry has it.
  pub erase_entry-dir_find :
      (t : List ℕ)
      → ((j : ℕ) → j < k → is_entry_of m d t j ≡ true → i ≡ j)
      → dir_find (erase_entry m d i) d k t ≡ none
  erase_entry-dir_find t only = find_from-none _ k 0 (λ j lo hi. elim (ℕ_discrete i j) [
    | yes e ↦
        subst (λ z. is_entry_of (erase_entry m d i) d t z ≡ false) e
          (vacant-is_entry_of _ d i t (erase_entry-is_vacant m d i))
    | no other ↦
        is_entry_of-SameEntry _ m d j (erase_entry-SameEntry m d i j other) t
        ∙ elim (Bool-cases (is_entry_of m d t j)) [
          | inl e ↦ absurd (other (only j (omega arith) e))
          | inr f ↦ f
        ]
  ])

  -- Erasing an entry changes no name that the entry has not.
  pub erase_entry-dir_find_ne :
      (t : List ℕ)
      → is_entry_of m d t i ≡ false
      → dir_find (erase_entry m d i) d k t ≡ dir_find m d k t
  erase_entry-dir_find_ne t not_it = find_from-congr _ _ k 0 (λ j lo hi. elim (ℕ_discrete i j) [
    | yes e ↦
        subst (λ z. is_entry_of (erase_entry m d i) d t z ≡ is_entry_of m d t z) e
          (vacant-is_entry_of _ d i t (erase_entry-is_vacant m d i) ∙ sym not_it)
    | no other ↦ is_entry_of-SameEntry _ m d j (erase_entry-SameEntry m d i j other) t
  ])
