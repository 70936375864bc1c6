-- ===== src/Fs/Dir/Lookup.antt =====
-- find_in_dir, add_dir_entry and clear_dir_entry on a state: a directory is a map from names.
use so_server_and_pipes.Base.{
  Option, ◌∷◌, find_from-congr, ◌≤◌, [], ◌∷◌, find_below-some, ℕ, ◌+◌, ◌*◌, ◌≤◌, ◌<◌, ◌≡◌, ap, ◌∙◌,
  inl, inr, true, false, none, some, List, arith, length, ℤ, pos, minus_one, is_minus_one,
  find_below, IsFirst, Option-cases, ne→==, le→ltb,
}
use so_server_and_pipes.Fs.Memory.{Bytes, load_int}
use so_server_and_pipes.Fs.Exec.{Sized, Fs, ok, t_directory}
use so_server_and_pipes.Fs.Blocks.{data_size-Sized, block_below, data_block_get-pos, data_block_get}
use so_server_and_pipes.Fs.Inodes.{d_inumber_at, max_dir_entries}
use so_server_and_pipes.Fs.Dir.{
  clear_at, stops, entry_at, strays, strcmp_reads, is_vacant, is_entry_of, erase_entry, fill_entry,
  has_name, find_in_dir, add_dir_entry, clear_dir_entry,
}
use so_server_and_pipes.Fs.Dir.Entries.{IsName}
use so_server_and_pipes.Fs.Dir.Map.{dir_find, dir_value}

-- Inode `p` is a directory with data block `b`, in a file system of fewer than 2 ^ 64 bytes.
pub record IsDirectory (s : Fs) (p b : ℕ) : Type 0 where
  pub node : (s.inode_table p).i_node_type ≡ t_directory
  pub block : (s.inode_table p).i_data_block ≡ pos b
  pub valid : b < s.fs_params.max_block_count
  pub sized : Sized s.fs_params

-- The address of the directory's entries.
abbrev pub base : Fs → ℕ → ℕ
base s b = b * s.fs_params.block_size

strcmp_reads-le : (m : Bytes) (a : ℕ) (n : List ℕ) → strcmp_reads m a n ≤ length n + 1
strcmp_reads-le m a [] = omega arith
strcmp_reads-le m a (c ∷ cs) = let rest = strcmp_reads-le m (a + 1) cs in ground (arith, rest)

module _ {s : Fs} {p b : ℕ} (dir : IsDirectory s p b) where
  pub data_block_get-ok : data_block_get (s.inode_table p).i_data_block s ≡ ok (base s b) s
  data_block_get-ok = rw dir.block (data_block_get-pos s b dir.valid dir.sized)

  pub find_in_dir-eq :
      (n : List ℕ) → find_in_dir p n s ≡ ok (dir_value s.fs_data (base s b) (max_dir_entries s) n) s
  unfolding find_in_dir
  find_in_dir-eq n = rw (dir.node, data_block_get-ok) (ground arith)

  -- `add_dir_entry` fills the first vacant entry.
  pub add_dir_entry-eq :
      (n : List ℕ) (v : ℤ) (i : ℕ)
      → IsName n
      → find_below (is_vacant s.fs_data (base s b)) (max_dir_entries s) ≡ some i
      → add_dir_entry p n v s
        ≡ ok (pos 0) (record s { fs_data = fill_entry s.fs_data (base s b) i n v })
  unfolding add_dir_entry
  add_dir_entry-eq n v i name first =
      rw
        (
          ne→== (length n) 0 (omega (arith, name.some_byte)),
          le→ltb 39 (length n) name.fits,
          dir.node,
          data_block_get-ok,
        )
        (ground arith)

  -- Without a vacant entry `add_dir_entry` fails.
  pub add_dir_entry-full :
      (n : List ℕ) (v : ℤ)
      → IsName n
      → find_below (is_vacant s.fs_data (base s b)) (max_dir_entries s) ≡ none
      → add_dir_entry p n v s ≡ ok minus_one s
  unfolding add_dir_entry
  add_dir_entry-full n v name full =
      rw
        (
          ne→== (length n) 0 (omega (arith, name.some_byte)),
          le→ltb 39 (length n) name.fits,
          dir.node,
          data_block_get-ok,
        )
        (ground arith)

  -- For a name that an entry can hold, strcmp reads no byte outside the entry.
  in_entry :
      (n : List ℕ) (i : ℕ) → IsName n → i < max_dir_entries s → strays s (base s b) n i ≡ false
  unfolding strays
  in_entry n i name lt =
      let reads = strcmp_reads-le s.fs_data (entry_at (base s b) i) n in
      let below = block_below b s.fs_params.max_block_count s.fs_params.block_size dir.valid in
      let size = data_size-Sized s dir.sized in
      le→ltb _ _ (omega (arith, reads, below, size, lt, name.fits))

  clear_dir_entry-search :
      (n : List ℕ)
      → IsName n
      → find_below (stops s (base s b) n) (max_dir_entries s)
        ≡ find_below (has_name s.fs_data (base s b) n) (max_dir_entries s)
  unfolding stops
  clear_dir_entry-search n name =
      find_from-congr _ _ (max_dir_entries s) 0
        (λ j lo hi. rw (in_entry n j name (omega (arith, hi))))

  -- For such a name `clear_dir_entry` looks for the first entry that strcmp finds equal.
  clear_dir_entry-at :
      (n : List ℕ) (r : Option ℕ)
      → IsName n
      → find_below (has_name s.fs_data (base s b) n) (max_dir_entries s) ≡ r
      → clear_dir_entry p n s ≡ clear_at (base s b) n r s
  unfolding clear_dir_entry
  clear_dir_entry-at n r name e =
      rw (dir.node, data_block_get-ok)
        (ap (λ (o : Option ℕ). clear_at (base s b) n o s) (clear_dir_entry-search n name ∙ e))

  -- `clear_dir_entry` erases that entry, in use or not.
  pub clear_dir_entry-eq :
      (n : List ℕ) (i : ℕ)
      → IsName n
      → find_below (has_name s.fs_data (base s b) n) (max_dir_entries s) ≡ some i
      → clear_dir_entry p n s
        ≡ ok (pos 0) (record s { fs_data = erase_entry s.fs_data (base s b) i })
  unfolding clear_at
  clear_dir_entry-eq n i name first =
      let fine = in_entry n i name (find_below-some _ _ i first).below in
      clear_dir_entry-at n (some i) name first ∙ rw fine

pub is_entry_of-used :
    (m : Bytes) (d : ℕ) (n : List ℕ) (i : ℕ)
    → is_entry_of m d n i ≡ true
    → is_minus_one (load_int m (d_inumber_at d i)) ≡ false
unfolding is_entry_of is_vacant
is_entry_of-used m d n i h = ground arith

-- A name is not found just if no entry has it: an entry in use never holds -1.
pub dir_value-none :
    (m : Bytes) (d k : ℕ) (n : List ℕ)
    → is_minus_one (dir_value m d k n) ≡ true
    → dir_find m d k n ≡ none
unfolding is_entry_of is_vacant
dir_value-none m d k n h = elim (Option-cases (dir_find m d k n)) [
  | inl e ↦ e
  | inr (i, e) ↦
      let first = find_below-some (is_entry_of m d n) k i e in
      let used = is_entry_of-used m d n i first.passes in ground arith
]

-- A successful `add_dir_entry` has filled a vacant entry.
pub add_dir_entry-done :
    {s s' : Fs} {p b : ℕ} (n : List ℕ) (v : ℤ)
    → IsDirectory s p b
    → IsName n
    → add_dir_entry p n v s ≡ ok (pos 0) s'
    → (i : ℕ) × IsFirst (is_vacant s.fs_data (base s b)) 0 (max_dir_entries s) i
      × (s' ≡ record s { fs_data = fill_entry s.fs_data (base s b) i n v })
add_dir_entry-done {s} {b} n v dir name done =
    elim (Option-cases (find_below (is_vacant s.fs_data (base s b)) (max_dir_entries s))) [
      | inl e ↦ let full = add_dir_entry-full dir n v name e in cc
      | inr (i, e) ↦
          let filled = add_dir_entry-eq dir n v i name e in (i, find_below-some _ _ i e, cc)
    ]

-- What `find_in_dir` returns is the value of the name.
pub find_in_dir-value :
    {s : Fs} {p b : ℕ} {w : ℤ} (n : List ℕ)
    → IsDirectory s p b
    → find_in_dir p n s ≡ ok w s
    → dir_value s.fs_data (base s b) (max_dir_entries s) n ≡ w
find_in_dir-value n dir found = let e = find_in_dir-eq dir n in cc

pub find_in_dir-ok :
    {s : Fs} {p b : ℕ} (n : List ℕ) (w : ℤ)
    → IsDirectory s p b
    → dir_value s.fs_data (base s b) (max_dir_entries s) n ≡ w
    → find_in_dir p n s ≡ ok w s
find_in_dir-ok {s} n w dir e = find_in_dir-eq dir n ∙ ap (λ x. ok x s) e

pub dir_value-absent :
    (m : Bytes) (d k : ℕ) (n : List ℕ) → dir_find m d k n ≡ none → dir_value m d k n ≡ minus_one
dir_value-absent m d k n e = rw (e, dir_value)

-- A memory in which the same entry is found, with the same bytes, has the same value.
pub dir_value-same :
    (m m' : Bytes) (d k : ℕ) (t : List ℕ)
    → dir_find m' d k t ≡ dir_find m d k t
    → ((i : ℕ)
        → dir_find m d k t ≡ some i
        → load_int m' (d_inumber_at d i) ≡ load_int m (d_inumber_at d i))
    → dir_value m' d k t ≡ dir_value m d k t
dir_value-same m m' d k t same loads = elim (Option-cases (dir_find m d k t)) [
  | inl e ↦ ground arith
  | inr (i, e) ↦ ground (arith, loads i)
]
