-- ===== src/Fs/Dir/Entries.antt =====
-- What filling and erasing one entry of a directory does to that entry and to the others.
use so_server_and_pipes.Base.{
  ◌⊎◌, ℕ, ◌+◌, ◌-◌, ◌≤◌, ◌<◌, ◌≡◌, sym, ap, ◌∙◌, ◌≢◌, inl, inr, true, false, List, [], ◌∷◌, ◌++◌,
  arith, length, get_or, replicate, ℤ, minus_one, is_minus_one, Bool-cases, length-append, IsInt,
}
use so_server_and_pipes.Fs.Memory.{
  Bytes, write_bytes, store_int, load_int, strn_eq_at, Same, write_bytes-outside,
  write_bytes-inside, IsText, strncpy_bytes,
}
use so_server_and_pipes.Fs.Memory.Frame.{
  write_bytes-Same, store_int-Same, Same-trans, Same-part, load_int-Same, strn_eq_at-Same,
  str_eq_at-Same,
}
use native.Mathlib.Decide.{dec_lt}
use so_server_and_pipes.Fs.Memory.RoundTrip.{
  get_or-append_zeros, get_or-beyond, Holds, load_int-store_int, strn_eq_at_self, strn_eq_at-eq,
  strncpy_bytes-eq, length-strncpy_bytes, write_bytes-Holds,
}
use so_server_and_pipes.Fs.Inodes.{dir_entry_size, entry_at, d_inumber_at}
use so_server_and_pipes.Fs.Dir.{is_vacant, is_entry_of, erase_entry, fill_entry, has_name}

-- A name that an entry can hold.
pub record IsName (n : List ℕ) : Type 0 where
  pub text : IsText n
  pub some_byte : 0 < length n
  pub fits : length n ≤ 39

-- Two memories agree on entry `i`.
abbrev pub SameEntry : Bytes → Bytes → ℕ → ℕ → Type 0
SameEntry m m' d i = Same m m' (entry_at d i) dir_entry_size

-- Entry `i` holds the name `n` with a NUL behind it.
abbrev pub Named : Bytes → ℕ → ℕ → List ℕ → Type 0
Named m d i n = Holds m (entry_at d i) (n ++ 0 ∷ [])

module _ (m m' : Bytes) (d i : ℕ) (same : SameEntry m m' d i) where
  pub load_int-SameEntry : load_int m (d_inumber_at d i) ≡ load_int m' (d_inumber_at d i)
  load_int-SameEntry =
      load_int-Same m m' _
        (Same-part m m' _ _ (d_inumber_at d i) 4 (omega arith) (omega arith) same)

  pub is_vacant-SameEntry : is_vacant m d i ≡ is_vacant m' d i
  unfolding is_vacant
  is_vacant-SameEntry = rw load_int-SameEntry

  pub is_entry_of-SameEntry : (n : List ℕ) → is_entry_of m d n i ≡ is_entry_of m' d n i
  unfolding is_entry_of
  is_entry_of-SameEntry n = rw (
    is_vacant-SameEntry,
    strn_eq_at-Same m m' n 40 _
        (Same-part m m' _ _ (entry_at d i) 40 (omega arith) (omega arith) same),
  )

  pub has_name-SameEntry : (n : List ℕ) → length n ≤ 39 → has_name m d n i ≡ has_name m' d n i
  has_name-SameEntry n fits =
      str_eq_at-Same m m' n _ (Same-part m m' _ _ (entry_at d i) _ (omega arith) (omega arith) same)

module _ (m : Bytes) (d i : ℕ) where
  -- Erasing touches no other entry.
  pub erase_entry-SameEntry : (j : ℕ) → i ≢ j → SameEntry (erase_entry m d i) m d j
  unfolding erase_entry
  erase_entry-SameEntry j ne =
      Same-trans _ (store_int m (d_inumber_at d i) minus_one) m _ _
        (write_bytes-Same _ _ (replicate 40 0) _ _ (omega arith))
        (store_int-Same m _ minus_one _ _ (omega arith))

  -- Nor does it touch what is outside of the entries.
  pub erase_entry-outside :
      (x : ℕ) → (x < entry_at d i) ⊎ (entry_at d i + dir_entry_size ≤ x) → erase_entry m d i x ≡ m x
  unfolding erase_entry
  erase_entry-outside x h =
      write_bytes-Same (store_int m (d_inumber_at d i) minus_one) (entry_at d i) (replicate 40 0) x
        1 (omega arith) x (omega arith) (omega arith)
      ∙ store_int-Same m (d_inumber_at d i) minus_one x 1 (omega arith) x (omega arith)
          (omega arith)

  pub erase_entry-load : load_int (erase_entry m d i) (d_inumber_at d i) ≡ minus_one
  unfolding erase_entry
  erase_entry-load =
      load_int-Same _ (store_int m (d_inumber_at d i) minus_one) _
        (write_bytes-Same _ _ (replicate 40 0) _ _ (omega arith))
      ∙ load_int-store_int m _ minus_one (omega arith)

  pub erase_entry-is_vacant : is_vacant (erase_entry m d i) d i ≡ true
  unfolding is_vacant
  erase_entry-is_vacant = rw erase_entry-load

  pub erase_entry-Named : Named (erase_entry m d i) d i []
  unfolding erase_entry
  erase_entry-Named k h = ground (
    arith,
    write_bytes-Holds (store_int m (d_inumber_at d i) minus_one) (entry_at d i) (replicate 40 0) k,
  )

  module _ (n : List ℕ) (v : ℤ) (name : IsName n) where
    open name use {fits}

    -- Filling touches no other entry.
    pub fill_entry-SameEntry : (j : ℕ) → i ≢ j → SameEntry (fill_entry m d i n v) m d j
    unfolding fill_entry
    fill_entry-SameEntry j ne =
        let m₁ = store_int m (d_inumber_at d i) v in
        let m₂ = write_bytes m₁ (entry_at d i) (strncpy_bytes n 39) in
        Same-trans _ m₂ m _ _ (write_bytes-Same m₂ _ (0 ∷ []) _ _ (omega arith)) (
          Same-trans _ m₁ m _ _
            (write_bytes-Same m₁ _ (strncpy_bytes n 39) _ _
              (omega (arith, length-strncpy_bytes n 39 fits)))
            (store_int-Same m _ v _ _ (omega arith)))

    pub fill_entry-outside :
        (x : ℕ)
        → (x < entry_at d i) ⊎ (entry_at d i + dir_entry_size ≤ x)
        → fill_entry m d i n v x ≡ m x
    unfolding fill_entry
    fill_entry-outside x h =
        let m₁ = store_int m (d_inumber_at d i) v in
        let m₂ = write_bytes m₁ (entry_at d i) (strncpy_bytes n 39) in
        write_bytes-Same m₂ _ (0 ∷ []) x 1 (omega arith) x (omega arith) (omega arith)
        ∙ write_bytes-Same m₁ _ (strncpy_bytes n 39) x 1
            (omega (arith, length-strncpy_bytes n 39 fits)) x (omega arith) (omega arith)
        ∙ store_int-Same m (d_inumber_at d i) v x 1 (omega arith) x (omega arith) (omega arith)

    pub fill_entry-load : IsInt v → load_int (fill_entry m d i n v) (d_inumber_at d i) ≡ v
    unfolding fill_entry
    fill_entry-load range =
        let m₁ = store_int m (d_inumber_at d i) v in
        let m₂ = write_bytes m₁ (entry_at d i) (strncpy_bytes n 39) in
        load_int-Same _ m₂ _ (write_bytes-Same m₂ _ (0 ∷ []) _ _ (omega arith))
        ∙ load_int-Same m₂ m₁ _ (
            write_bytes-Same m₁ _ (strncpy_bytes n 39) _ _
              (omega (arith, length-strncpy_bytes n 39 fits)))
        ∙ load_int-store_int m _ v range

    -- The padded name reads as the name and a NUL.
    padded : (k : ℕ) → get_or (strncpy_bytes n 39) k 0 ≡ get_or (n ++ 0 ∷ []) k 0
    padded k =
        rw (strncpy_bytes-eq n 39 fits)
          (get_or-append_zeros n (39 - length n) k ∙ sym (get_or-append_zeros n 1 k))

    pub fill_entry-Named : Named (fill_entry m d i n v) d i n
    unfolding fill_entry
    fill_entry-Named k h =
        let m₁ = store_int m (d_inumber_at d i) v in
        let m₂ = write_bytes m₁ (entry_at d i) (strncpy_bytes n 39) in
        let bound = length-append n (0 ∷ []) in
        elim (dec_lt k 39) [
          | yes lt ↦
              write_bytes-outside m₂ (entry_at d i + 39) (0 ∷ []) _ (omega arith)
              ∙ write_bytes-inside m₁ (entry_at d i) (strncpy_bytes n 39) k
                  (omega (arith, length-strncpy_bytes n 39 fits))
              ∙ padded k
          | no ge ↦
              let last : k ≡ 39 = omega (arith, bound) in
              rw last (
                ap (write_bytes m₂ (entry_at d i + 39) (0 ∷ [])) (omega arith)
                ∙ write_bytes-inside m₂ (entry_at d i + 39) (0 ∷ []) 0 (omega arith)
                ∙ sym (get_or-beyond n 39 fits)
                ∙ sym (get_or-append_zeros n 1 39))
        ]

    -- The filled entry answers to its own name, and to no other.
    pub fill_entry-is_entry_of :
        IsInt v → is_minus_one v ≡ false → is_entry_of (fill_entry m d i n v) d n i ≡ true
    unfolding is_entry_of is_vacant
    fill_entry-is_entry_of range ne =
        rw (fill_entry-load range, ne, strn_eq_at_self _ _ n 40 fill_entry-Named)

    pub fill_entry-other :
        (t : List ℕ) → IsText t → t ≢ n → is_entry_of (fill_entry m d i n v) d t i ≡ false
    unfolding is_entry_of
    fill_entry-other t text ne =
        let m' = fill_entry m d i n v in
        elim (Bool-cases (strn_eq_at m' (entry_at d i) t 40)) [
          | inl e ↦ absurd (
              ne (
                strn_eq_at-eq m' (entry_at d i) n t 40 name.text text (omega arith) fill_entry-Named
                  e))
          | inr f ↦ ground arith
        ]
