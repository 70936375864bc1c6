-- ===== src/Fs/Dir/WellFormed.antt =====
-- Filling a vacant entry with a new name, and erasing an entry, keep a directory well formed.
use so_server_and_pipes.Base.{
  ℕ, ◌+◌, ◌<◌, ◌≡◌, sym, ap, ◌∙◌, ◌≢◌, inl, inr, true, false, none, List, [], ◌∷◌, arith, length, ℤ,
  is_minus_one, Bool-cases, length-append, IsInt,
}
use native.Mathlib.Decide.{ℕ_discrete}
use so_server_and_pipes.Fs.Memory.{Bytes}
use so_server_and_pipes.Fs.Memory.RoundTrip.{str_eq_at-eq}
use so_server_and_pipes.Fs.Inodes.{entry_at}
use so_server_and_pipes.Fs.Dir.{is_vacant, is_entry_of, erase_entry, fill_entry, has_name}
use so_server_and_pipes.Fs.Dir.Entries.{
  IsName, Named, SameEntry, is_entry_of-SameEntry, is_vacant-SameEntry, has_name-SameEntry,
  erase_entry-SameEntry, erase_entry-is_vacant, erase_entry-Named, fill_entry-SameEntry,
  fill_entry-Named, fill_entry-is_entry_of,
}
use so_server_and_pipes.Fs.Dir.Map.{
  WfDir, vacant-is_entry_of, is_entry_of-vacant, Named-is_entry_of, dir_find,
}
use so_server_and_pipes.Base.{subst, find_below-none}

pub Named-SameEntry :
    (m m' : Bytes) (d j : ℕ) (n : List ℕ)
    → IsName n
    → SameEntry m' m d j
    → Named m d j n
    → Named m' d j n
Named-SameEntry m m' d j n name same at k h =
    same (entry_at d j + k) (omega arith) (omega (arith, length-append n (0 ∷ []), name.fits))
    ∙ at k h

-- A memory that differs from a well-formed directory's in entry `i` alone, where that entry is in
-- order and its name is nobody else's, is a well-formed directory.
module _ {m m' : Bytes} {d k : ℕ} (w : WfDir m d k) (i : ℕ)
    (same : (j : ℕ) → i ≢ j → SameEntry m' m d j) where
  change_entry-WfDir :
      (is_vacant m' d i ≡ false → (n : List ℕ) × IsName n × Named m' d i n)
      → ((t : List ℕ) → IsName t → is_vacant m' d i ≡ true → has_name m' d t i ≡ false)
      → ((t : List ℕ) (j : ℕ)
          → IsName t
          → j < k
          → i ≢ j
          → is_entry_of m' d t i ≡ true
          → is_entry_of m d t j ≡ false)
      → WfDir m' d k
  change_entry-WfDir named blank alone = record {
    named = λ j lt used. elim (ℕ_discrete i j) [
      | yes e ↦
          subst (λ z. (n : List ℕ) × IsName n × Named m' d z n) e
            (named (subst (λ z. is_vacant m' d z ≡ false) (sym e) used))
      | no ne ↦
          let (n, name, at) =
            w.named j lt (sym (is_vacant-SameEntry m' m d j (same j ne)) ∙ used) in
          (n, name, Named-SameEntry m m' d j n name (same j ne) at)
    ];
    blank = λ j t lt ht free. elim (ℕ_discrete i j) [
      | yes e ↦
          subst (λ z. has_name m' d t z ≡ false) e
            (blank t ht (subst (λ z. is_vacant m' d z ≡ true) (sym e) free))
      | no ne ↦
          has_name-SameEntry m' m d j (same j ne) t ht.fits
          ∙ w.blank j t lt ht (sym (is_vacant-SameEntry m' m d j (same j ne)) ∙ free)
    ];
    unique = λ a b t la lb ht ea eb. elim (ℕ_discrete i a) [
      | yes e ↦ elim (ℕ_discrete i b) [
        | yes e' ↦ sym e ∙ e'
        | no ne ↦
            absurd (clash t b ht lb ne (subst (λ z. is_entry_of m' d t z ≡ true) (sym e) ea) eb)
      ]
      | no ne ↦ elim (ℕ_discrete i b) [
        | yes e' ↦
            absurd (clash t a ht la ne (subst (λ z. is_entry_of m' d t z ≡ true) (sym e') eb) ea)
        | no ne' ↦ w.unique a b t la lb ht (back t a ne ea) (back t b ne' eb)
      ]
    ];
  }
    where
      back : (t : List ℕ) (j : ℕ) → i ≢ j → is_entry_of m' d t j ≡ true → is_entry_of m d t j ≡ true
      back t j ne e = sym (is_entry_of-SameEntry m' m d j (same j ne) t) ∙ e

      clash :
          (t : List ℕ) (j : ℕ)
          → IsName t
          → j < k
          → i ≢ j
          → is_entry_of m' d t i ≡ true
          → is_entry_of m' d t j ≡ true
          → ⊥
      clash t j ht lt ne ei ej =
          let yes_it = back t j ne ej in let not_it = alone t j ht lt ne ei in cc

-- `add_dir_entry` keeps a directory well formed.
pub fill_entry-WfDir :
    {m : Bytes} {d k : ℕ}
    → WfDir m d k
    → (i : ℕ) (n : List ℕ) (v : ℤ) → IsName n
    → IsInt v
    → is_minus_one v ≡ false
    → dir_find m d k n ≡ none
    → WfDir (fill_entry m d i n v) d k
fill_entry-WfDir {m} {d} {k} w i n v name range ne absent =
    change_entry-WfDir w i (fill_entry-SameEntry m d i n v name)
      (λ used. (n, name, fill_entry-Named m d i n v name))
      (λ t ht free.
        let used = is_entry_of-vacant _ d i n (fill_entry-is_entry_of m d i n v name range ne) in
        cc)
      (λ t j ht lt other e.
        subst (λ z. is_entry_of m d z j ≡ false)
          (sym (Named-is_entry_of _ d i n t name ht (fill_entry-Named m d i n v name) e))
          (find_below-none _ k absent j lt))

-- `clear_dir_entry` keeps a directory well formed.
pub erase_entry-WfDir :
    {m : Bytes} {d k : ℕ} → WfDir m d k → (i : ℕ) → WfDir (erase_entry m d i) d k
erase_entry-WfDir {m} {d} w i =
    change_entry-WfDir w i (erase_entry-SameEntry m d i)
      (λ used. let free = erase_entry-is_vacant m d i in cc)
      (λ t ht free. elim (Bool-cases (has_name (erase_entry m d i) d t i)) [
        | inl e ↦
            let empty = str_eq_at-eq _ (entry_at d i) [] t tt ht.text (erase_entry-Named m d i) e in
            absurd (omega (arith, ht.some_byte, ap length empty))
        | inr f ↦ f
      ])
      (λ t j ht lt other e.
        let free = vacant-is_entry_of _ d i t (erase_entry-is_vacant m d i) in cc)
