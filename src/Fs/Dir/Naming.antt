-- ===== src/Fs/Dir/Naming.antt =====
-- add_dir_entry and clear_dir_entry against find_in_dir: the laws of a map from names to inumbers.
use so_server_and_pipes.Base.{
  ◌⊎◌, ◌*◌, ◌+◌, ◌≤◌, arith, ◌⊎◌, ℕ, ◌<◌, ◌≡◌, sym, ap, ◌∙◌, ◌≢◌, inl, inr, true, false, none, some,
  List, ℤ, pos, minus_one, is_minus_one, Bool-cases, Option-cases, IsInt,
}
use so_server_and_pipes.Fs.Memory.{Bytes, IsText}
use so_server_and_pipes.Fs.Exec.{Fs, ok}
use so_server_and_pipes.Fs.Inodes.{dir_entry_size, max_dir_entries}
use so_server_and_pipes.Fs.Dir.{
  is_vacant, is_entry_of, erase_entry, fill_entry, find_in_dir, add_dir_entry, clear_dir_entry,
}
use so_server_and_pipes.Fs.Dir.Entries.{
  IsName, erase_entry-outside, load_int-SameEntry, fill_entry-SameEntry, erase_entry-SameEntry,
  fill_entry-load,
}
use so_server_and_pipes.Fs.Dir.Map.{
  WfDir, dir_find, dir_value, fill_entry-dir_find, fill_entry-dir_find_ne, erase_entry-dir_find,
  erase_entry-dir_find_ne, has_name-dir_find, vacant-is_entry_of, is_entry_of-vacant,
  Named-is_entry_of,
}
use so_server_and_pipes.Fs.Dir.WellFormed.{erase_entry-WfDir}
use so_server_and_pipes.Fs.Dir.Lookup.{
  IsDirectory, base, add_dir_entry-done, find_in_dir-value, find_in_dir-ok, clear_dir_entry-eq,
  dir_value-none, dir_value-absent, dir_value-same,
}
use so_server_and_pipes.Base.{subst, find_below-some}

module _ (m : Bytes) (d k i : ℕ) (lt : i < k) (n : List ℕ) (v : ℤ) (name : IsName n) where
  pub fill_entry-dir_value :
      IsInt v
      → is_minus_one v ≡ false
      → dir_find m d k n ≡ none
      → dir_value (fill_entry m d i n v) d k n ≡ v
  fill_entry-dir_value range ne absent =
      rw (fill_entry-dir_find m d k i lt n v name range ne absent, dir_value)
        (fill_entry-load m d i n v name range)

  pub fill_entry-dir_value_ne :
      (t : List ℕ)
      → IsText t
      → t ≢ n
      → is_vacant m d i ≡ true
      → dir_value (fill_entry m d i n v) d k t ≡ dir_value m d k t
  fill_entry-dir_value_ne t text ne vacant =
      dir_value-same m _ d k t (fill_entry-dir_find_ne m d k i lt n v name t text ne vacant)
        (λ j found.
          load_int-SameEntry _ m d j (fill_entry-SameEntry m d i n v name j (apart j found)))
    where
      apart : (j : ℕ) → dir_find m d k t ≡ some j → i ≢ j
      apart j found e =
          let hit = (find_below-some (is_entry_of m d t) k j found).passes in
          let miss =
            subst (λ z. is_entry_of m d t z ≡ false) e (vacant-is_entry_of m d i t vacant) in
          cc

module _ (m : Bytes) (d k i : ℕ) where
  pub erase_entry-dir_value :
      (t : List ℕ)
      → ((j : ℕ) → j < k → is_entry_of m d t j ≡ true → i ≡ j)
      → dir_value (erase_entry m d i) d k t ≡ minus_one
  erase_entry-dir_value t only = rw (erase_entry-dir_find m d k i t only, dir_value)

  pub erase_entry-dir_value_ne :
      (t : List ℕ)
      → is_entry_of m d t i ≡ false
      → dir_value (erase_entry m d i) d k t ≡ dir_value m d k t
  erase_entry-dir_value_ne t not_it =
      dir_value-same m _ d k t (erase_entry-dir_find_ne m d k i t not_it)
        (λ j found. load_int-SameEntry _ m d j (erase_entry-SameEntry m d i j (apart j found)))
    where
      apart : (j : ℕ) → dir_find m d k t ≡ some j → i ≢ j
      apart j found e =
          let hit = (find_below-some (is_entry_of m d t) k j found).passes in
          let miss = subst (λ z. is_entry_of m d t z ≡ false) e not_it in cc

-- A change of the bytes of `fs_data` leaves a directory a directory.
pub IsDirectory-data :
    {s : Fs} {p b : ℕ} (m : Bytes) → IsDirectory s p b → IsDirectory (record s { fs_data = m }) p b
IsDirectory-data m dir = record {
  node = dir.node;
  block = dir.block;
  valid = dir.valid;
  sized = dir.sized;
}

-- After a new name `n` is added to a directory, `find_in_dir` gives its inumber for `n`, and gives
-- for any other name `t` what it gave before. All blocks together have fewer than 2 ^ 64 bytes.
pub find_in_dir-add_dir_entry :
    {s s' : Fs} {p b : ℕ} (n : List ℕ) (v : ℤ) (t : List ℕ) (w : ℤ)
    → IsDirectory s p b
    → IsName n
    → IsInt v
    → is_minus_one v ≡ false
    → find_in_dir p n s ≡ ok minus_one s
    → add_dir_entry p n v s ≡ ok (pos 0) s'
    → IsText t
    → t ≢ n
    → find_in_dir p t s ≡ ok w s
    → (find_in_dir p n s' ≡ ok v s') × (find_in_dir p t s' ≡ ok w s')
find_in_dir-add_dir_entry {s} {p} {b} n v t w dir name range ne absent done text other found =
    let (i, first, e) = add_dir_entry-done n v dir name done in
    let k = max_dir_entries s in
    let m = s.fs_data in
    let dir' = IsDirectory-data (fill_entry m (base s b) i n v) dir in
    let gone = dir_value-none m (base s b) k n (ap is_minus_one (find_in_dir-value n dir absent)) in
    rw e (
      find_in_dir-ok n v dir'
          (fill_entry-dir_value m (base s b) k i first.below n v name range ne gone),
      find_in_dir-ok t w dir' (
          fill_entry-dir_value_ne m (base s b) k i first.below n v name t text other first.passes
          ∙ find_in_dir-value t dir found),
    )

-- In a well-formed directory the entry of one name is not the entry of another.
pub entry_of_one_name :
    {m : Bytes} {d k : ℕ}
    → WfDir m d k
    → (i : ℕ) (n t : List ℕ) → i < k
    → IsName n
    → IsName t
    → is_entry_of m d n i ≡ true
    → t ≢ n
    → is_entry_of m d t i ≡ false
entry_of_one_name {m} {d} w i n t lt hn ht e ne = elim (Bool-cases (is_entry_of m d t i)) [
  | inl e' ↦
      let (u, hu, at) = w.named i lt (is_entry_of-vacant m d i n e) in
      absurd (
        ne (Named-is_entry_of m d i u t hu ht at e' ∙ sym (Named-is_entry_of m d i u n hu hn at e)))
  | inr f ↦ f
]

-- `clear_dir_entry` of a name that a well-formed directory has: the state that it leaves, and what
-- the directory maps names to in it.
pub clear_dir_entry-value :
    {s : Fs} {p b : ℕ} (n : List ℕ)
    → IsDirectory s p b
    → WfDir s.fs_data (base s b) (max_dir_entries s)
    → IsName n
    → is_minus_one (dir_value s.fs_data (base s b) (max_dir_entries s) n) ≡ false
    → (m : Bytes) × (clear_dir_entry p n s ≡ ok (pos 0) (record s { fs_data = m }))
      × (dir_value m (base s b) (max_dir_entries s) n ≡ minus_one)
      × ((t : List ℕ)
          → IsName t
          → t ≢ n
          → dir_value m (base s b) (max_dir_entries s) t
            ≡ dir_value s.fs_data (base s b) (max_dir_entries s) t)
      × WfDir m (base s b) (max_dir_entries s)
      × ((x : ℕ)
          → (x < base s b) ⊎ (base s b + dir_entry_size * max_dir_entries s ≤ x)
          → m x ≡ s.fs_data x)
clear_dir_entry-value {s} {p} {b} n dir wf name ne = elim (Option-cases (dir_find m d k n)) [
  | inl e ↦ let wrong = ap is_minus_one (dir_value-absent m d k n e) in cc
  | inr (i, e) ↦
      let first = find_below-some (is_entry_of m d n) k i e in
      (
        erase_entry m d i,
        clear_dir_entry-eq dir n i name (has_name-dir_find wf n name ∙ e),
        erase_entry-dir_value m d k i n
            (λ j lt hit. wf.unique i j n first.below lt name first.passes hit),
        λ t text other.
            erase_entry-dir_value_ne m d k i t
              (entry_of_one_name wf i n t first.below name text first.passes other),
        erase_entry-WfDir wf i,
        λ x out. erase_entry-outside m d i x (omega (arith, out, first.below)),
      )
]
  where
    m : Bytes
    m = s.fs_data

    d : ℕ
    d = base s b

    k : ℕ
    k = max_dir_entries s

-- A name `n` that a well-formed directory has is cleared by `clear_dir_entry`: `find_in_dir` finds
-- it no more, gives for any other name `t` what it gave before, and the directory stays well
-- formed. All blocks together have fewer than 2 ^ 64 bytes.
pub find_in_dir-clear_dir_entry :
    {s : Fs} {p b : ℕ} (n : List ℕ) (v : ℤ) (t : List ℕ) (w : ℤ)
    → IsDirectory s p b
    → WfDir s.fs_data (base s b) (max_dir_entries s)
    → IsName n
    → is_minus_one v ≡ false
    → find_in_dir p n s ≡ ok v s
    → IsName t
    → t ≢ n
    → find_in_dir p t s ≡ ok w s
    → (s' : Fs) × (clear_dir_entry p n s ≡ ok (pos 0) s')
      × (find_in_dir p n s' ≡ ok minus_one s')
      × (find_in_dir p t s' ≡ ok w s')
      × WfDir s'.fs_data (base s' b) (max_dir_entries s')
find_in_dir-clear_dir_entry {s} {b} n v t w dir wf name ne found text other seen =
    let here = find_in_dir-value n dir found in
    let (m, done, gone, kept, wf', outside) =
      clear_dir_entry-value n dir wf name (ap is_minus_one here ∙ ne) in
    let dir' = IsDirectory-data m dir in
    (
      record s { fs_data = m },
      done,
      find_in_dir-ok n minus_one dir' gone,
      find_in_dir-ok t w dir' (kept t text other ∙ find_in_dir-value t dir seen),
      wf',
    )
