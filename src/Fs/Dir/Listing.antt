-- ===== src/Fs/Dir/Listing.antt =====
-- find_in_dir against a reference: the directory read as a list of names with their inumbers.
use so_server_and_pipes.Base.{
  ℕ, zero, suc, ◌+◌, ◌≤◌, ◌<◌, ◌≡◌, refl, sym, ap, ◌∙◌, inl, inr, Bool, true, false, ◌&&◌, Option,
  none, some, List, [], ◌∷◌, arith, ◌==◌, if◌then◌else◌, ℤ, minus_one, find_from, Bool-cases, eq→==,
}
use so_server_and_pipes.Fs.Exec.{Fs, ok}
use so_server_and_pipes.Fs.Memory.{Bytes}
use so_server_and_pipes.Fs.Memory.{load_int}
use so_server_and_pipes.Fs.Memory.RoundTrip.{strn_eq_at_self}
use so_server_and_pipes.Fs.Inodes.{max_dir_entries, max_file_name, entry_at, d_inumber_at}
use so_server_and_pipes.Fs.Dir.{is_vacant, is_entry_of, find_in_dir}
use so_server_and_pipes.Fs.Dir.Entries.{IsName, Named}
use so_server_and_pipes.Fs.Dir.Map.{WfDir, vacant-is_entry_of, Named-is_entry_of}
use so_server_and_pipes.Fs.Dir.Lookup.{IsDirectory, base, find_in_dir-eq}
use so_server_and_pipes.Task.{string_at}
use so_server_and_pipes.Task.Text.{string_at-Holds}

-- The text of entry `i`, if a NUL ends it.
abbrev pub name_at : Bytes → ℕ → ℕ → Option (List ℕ)
name_at m d i = string_at m (entry_at d i) max_file_name

-- The entries in use of `k` entries from entry `i` on.
abbrev pub entries : Bytes → ℕ → ℕ → ℕ → List (Option (List ℕ) × ℤ)
entries m d zero i = []
entries m d (suc k) i =
    let rest = entries m d k (i + 1) in
    if is_vacant m d i then rest else (name_at m d i, load_int m (d_inumber_at d i)) ∷ rest

abbrev pub same_text : List ℕ → List ℕ → Bool
same_text [] [] = true
same_text [] (c ∷ cs) = false
same_text (c ∷ cs) [] = false
same_text (c ∷ cs) (b ∷ bs) = c == b && same_text cs bs

abbrev pub is_named : List ℕ → Option (List ℕ) → Bool
is_named t none = false
is_named t (some n) = same_text n t

-- The inumber of the first entry with the name, or -1.
abbrev pub look_up : List ℕ → List (Option (List ℕ) × ℤ) → ℤ
look_up t [] = minus_one
look_up t ((n, v) ∷ rest) = let later = look_up t rest in if is_named t n then v else later

same_text_self : (t : List ℕ) → same_text t t ≡ true
same_text_self [] = refl
same_text_self (c ∷ cs) = rw (eq→== c c refl, same_text_self cs)

same_text-eq : (s t : List ℕ) → same_text s t ≡ true → s ≡ t
same_text-eq [] [] e = refl
same_text-eq [] (c ∷ cs) e = cc
same_text-eq (c ∷ cs) [] e = cc
same_text-eq (c ∷ cs) (b ∷ bs) e =
    let heads : c ≡ b = ground arith in
    let tails : same_text cs bs ≡ true = ground arith in let rest = same_text-eq cs bs tails in cc

-- An entry in use answers to its own name.
entry_of_its_name :
    (m : Bytes) (d i : ℕ) (n : List ℕ)
    → Named m d i n
    → is_vacant m d i ≡ false
    → is_entry_of m d n i ≡ true
unfolding is_entry_of
entry_of_its_name m d i n at used = rw (used, strn_eq_at_self m (entry_at d i) n 40 at)

module _ {m : Bytes} {d size : ℕ} (w : WfDir m d size) (t : List ℕ) (name : IsName t) where
  -- An entry in use passes the test of the search just if its text is the name.
  is_entry_of-is_named :
      (i : ℕ)
      → i < size
      → is_vacant m d i ≡ false
      → is_entry_of m d t i ≡ is_named t (name_at m d i)
  is_entry_of-is_named i lt used =
      let (n, hn, at) = w.named i lt used in
      let text : name_at m d i ≡ some n =
        string_at-Holds m (entry_at d i) n max_file_name hn.text (omega (arith, hn.fits)) at in
      elim (Bool-cases (is_entry_of m d t i)) [
        | inl e ↦
            let same = Named-is_entry_of m d i n t hn name at e in
            e ∙ sym (ap (is_named t) text ∙ ap (same_text n) same ∙ same_text_self n)
        | inr f ↦ elim (Bool-cases (same_text n t)) [
          | inl e ↦ absurd (
              let hit = entry_of_its_name m d i n at used in
              let same = same_text-eq n t e in
              let moved = ap (λ (x : List ℕ). is_entry_of m d x i) same in cc)
          | inr f' ↦ f ∙ sym (ap (is_named t) text ∙ f')
        ]
      ]

  -- The search and the look-up agree, on `k` entries from entry `i` on.
  dir_value-look_up :
      (k i : ℕ)
      → i + k ≤ size
      → elim (find_from (is_entry_of m d t) k i) [
        | none ↦ minus_one
        | some j ↦ load_int m (d_inumber_at d j)
      ]
        ≡ look_up t (entries m d k i)
  unfolding find_from
  dir_value-look_up zero i h = refl
  dir_value-look_up (suc k) i h =
      let later = dir_value-look_up k (i + 1) (omega arith) in
      elim (Bool-cases (is_vacant m d i)) [
        | inl e ↦ let miss = vacant-is_entry_of m d i t e in rw (miss, e) later
        | inr used ↦
            let same = is_entry_of-is_named i (omega arith) used in
            elim (Bool-cases (is_entry_of m d t i)) [
              | inl hit ↦ rw (hit, used, sym same ∙ hit)
              | inr miss ↦ rw (miss, used, sym same ∙ miss) later
            ]
      ]

-- On a well-formed directory `find_in_dir` of a name returns what a reference does that reads the
-- entries in use as a list of texts with their inumbers, and looks the name up in it. All blocks
-- together have fewer than 2 ^ 64 bytes.
pub find_in_dir-look_up :
    {s : Fs} {p b : ℕ} (t : List ℕ)
    → IsDirectory s p b
    → WfDir s.fs_data (base s b) (max_dir_entries s)
    → IsName t
    → find_in_dir p t s ≡ ok (look_up t (entries s.fs_data (base s b) (max_dir_entries s) 0)) s
find_in_dir-look_up {s} {b} t dir w name =
    find_in_dir-eq dir t
    ∙ ap (λ (v : ℤ). ok v s) (dir_value-look_up w t name (max_dir_entries s) 0 (omega arith))
