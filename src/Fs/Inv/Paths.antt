-- ===== src/Fs/Inv/Paths.antt =====
-- Path names: which are valid, and what their names lead to where the invariant holds.
use so_server_and_pipes.Base.{
  ℕ, ◌<◌, ◌≡◌, refl, sym, ap, ◌∙◌, ◌⊎◌, inl, inr, true, false, Option, none, some, List, [], ◌∷◌,
  arith, ◌==◌, length, pos, minus_one, Bool-cases, Option-cases, ==→eq,
}
use so_server_and_pipes.Base.{subst, find_below-some}
use so_server_and_pipes.Fs.Exec.{Fs}
use so_server_and_pipes.Fs.Memory.{Bytes, IsText}
use so_server_and_pipes.Fs.Memory.RoundTrip.{strn_eq_at-eq}
use so_server_and_pipes.Fs.Inodes.{entry_at, max_dir_entries}
use so_server_and_pipes.Fs.Dir.{is_entry_of}
use so_server_and_pipes.Fs.Dir.Entries.{IsName}
use so_server_and_pipes.Fs.Dir.Map.{WfDir, dir_find, is_entry_of-vacant}
use so_server_and_pipes.Fs.Dir.Lookup.{base, dir_value-absent}
use so_server_and_pipes.Fs.Ops.{slash, valid_pathname, tfs_open, tfs_unlink, unlock_return}
use so_server_and_pipes.Fs.Ops.Handles.{locked-free}
use so_server_and_pipes.Fs.Ops.Paths.{path_of, root_value}
use so_server_and_pipes.Fs.Inv.{Good, IsLive}
use so_server_and_pipes.Fs.Inv.Handles.{NotOpen}
use so_server_and_pipes.Fs.Inv.Returns.{Returns}

-- A path name is NULL or a C string.
abbrev pub IsPath : Option (List ℕ) → Type 0
IsPath none = Unit {0}
IsPath (some t) = IsText t

-- No handle is open on the file that the path name leads to, if it leads to one.
abbrev pub Unopened : Fs → ℕ → Option (List ℕ) → Type 0
Unopened s b path =
    (n : List ℕ) (p : ℕ)
    → path ≡ path_of n
    → root_value s b n ≡ pos p
    → NotOpen s.fs_params s.open_file_table s.free_open_file_entries p

-- A path name is invalid, or a slash and a name.
abbrev pub Parts : Option (List ℕ) → Type 0
Parts path =
    (valid_pathname path ≡ false) ⊎ ((n : List ℕ) × (path ≡ path_of n) × IsText n × (0 < length n))

pub path-Parts : (path : Option (List ℕ)) → IsPath path → Parts path
unfolding valid_pathname
path-Parts none h = inl refl
path-Parts (some []) h = inl refl
path-Parts (some (c ∷ [])) h = inl refl
path-Parts (some (c ∷ x ∷ xs)) h = elim (Bool-cases (c == slash)) [
  | inl t ↦ let e = ==→eq c slash t in inr (x ∷ xs, ap (λ z. some (z ∷ x ∷ xs)) e, h.1, omega arith)
  | inr f ↦ inl (ground arith)
]

-- In a well-formed directory an entry answers to texts that are names only.
entry-IsName :
    {m : Bytes} {d k : ℕ}
    → WfDir m d k
    → (t : List ℕ) (i : ℕ) → i < k
    → IsText t
    → is_entry_of m d t i ≡ true
    → IsName t
unfolding is_entry_of
entry-IsName {m} {d} w t i lt text e =
    let (n, name, at) = w.named i lt (is_entry_of-vacant m d i t e) in
    let same =
      strn_eq_at-eq m (entry_at d i) n t 40 name.text text (omega (arith, name.fits)) at
        (ground arith) in
    subst IsName (sym same) name

-- A text leads nowhere, or is a name that leads to a file in use.
pub text-cases :
    (s : Fs) {b : ℕ} (t : List ℕ)
    → Good s b
    → IsText t
    → (root_value s b t ≡ minus_one)
      ⊎ (IsName t × ((p : ℕ) × (root_value s b t ≡ pos p) × IsLive s.fs_params s.freeinode_ts p))
text-cases s {b} t g text =
    elim (Option-cases (dir_find s.fs_data (base s b) (max_dir_entries s) t)) [
      | inl e ↦ inl (dir_value-absent s.fs_data (base s b) (max_dir_entries s) t e)
      | inr (i, e) ↦
          let first = find_below-some (is_entry_of s.fs_data (base s b) t) _ i e in
          let name = entry-IsName g.names_ok.directory t i first.below text first.passes in
          elim (g.names_ok.target t name) [
            | inl none_there ↦ inl none_there
            | inr there ↦ inr (name, there)
          ]
    ]

-- With an invalid path name tfs_open and tfs_unlink fail.
module _ (s : Fs) {b : ℕ} (path : Option (List ℕ)) (free_mutex : s.library_mutex ≡ false)
    (g : Good s b) (invalid : valid_pathname path ≡ false) where
  pub tfs_open-invalid : (mode : ℕ) → Returns b (tfs_open path mode s)
  unfolding tfs_open unlock_return
  tfs_open-invalid mode = (
    minus_one,
    record s { library_mutex = false },
    locked-free _ s free_mutex ∙ rw invalid,
    refl,
    g,
  )

  pub tfs_unlink-invalid : Returns b (tfs_unlink path s)
  unfolding tfs_unlink unlock_return
  tfs_unlink-invalid = (
    minus_one,
    record s { library_mutex = false },
    locked-free _ s free_mutex ∙ rw invalid,
    refl,
    g,
  )
