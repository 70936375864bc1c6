-- ===== src/Fs/Inv/Names.antt =====
-- What a new name and a name that is erased do to the names of the root
-- directory.
use so_server_and_pipes.Base.{
  ℕ, ◌*◌, ◌^◌, ◌<◌, ◌≡◌, refl, sym, ap, ◌∙◌, ◌≢◌, ◌⊎◌, inl, inr, true, none, List, [], ◌∷◌, update,
  pos, minus_one, is_minus_one, update_self,
}
use so_server_and_pipes.Base.{subst}
use native.Mathlib.Decide.{ℕ_discrete}
use so_server_and_pipes.Fs.Exec.{Params, AllocationState, taken, free}
use so_server_and_pipes.Fs.Memory.{Bytes}
use so_server_and_pipes.Fs.Dir.{is_vacant, fill_entry}
use so_server_and_pipes.Fs.Dir.Entries.{IsName}
use so_server_and_pipes.Fs.Dir.Map.{WfDir, dir_find}
use so_server_and_pipes.Fs.Dir.WellFormed.{fill_entry-WfDir}
use so_server_and_pipes.Fs.Dir.Naming.{fill_entry-dir_value, fill_entry-dir_value_ne}
use so_server_and_pipes.Fs.Dir.Lookup.{dir_value-none}
use so_server_and_pipes.Fs.Inv.{IsLive, WfNames, entry_count, name_value}
use so_server_and_pipes.Fs.Inv.Tables.{
  taken-IsLive, IsLive-taken, IsLive-freed, freed-IsLive, used_apart,
}

-- Two texts are equal or not.
pub texts-cases : (s t : List ℕ) → (s ≡ t) ⊎ (s ≢ t)
texts-cases [] [] = inl refl
texts-cases [] (c ∷ cs) = inr (λ e. cc)
texts-cases (b ∷ bs) [] = inr (λ e. cc)
texts-cases (b ∷ bs) (c ∷ cs) = elim (ℕ_discrete b c) [
  | yes e ↦ elim (texts-cases bs cs) [
    | inl e' ↦ inl (cc)
    | inr ne ↦ inr (λ f. let tails : bs ≡ cs = cc in ne tails)
  ]
  | no ne ↦ inr (λ f. let heads : b ≡ c = cc in ne heads)
]

module _ {g : Params} {inodes : ℕ → AllocationState} {m : Bytes} {b : ℕ}
    (w : WfNames g inodes m b) where
  pub name-IsLive : (n : List ℕ) (p : ℕ) → IsName n → name_value g m b n ≡ pos p → IsLive g inodes p
  name-IsLive n p name here = elim (w.target n name) [
    | inl e ↦ absurd (let wrong : pos p ≡ minus_one = sym here ∙ e in cc)
    | inr (q, there, l) ↦ let same : q ≡ p = cc in subst (IsLive g inodes) same l
  ]

  -- Name `n` is given to the free inode `p`, in entry `i`.
  module _ (n : List ℕ) (p i : ℕ) (name : IsName n) (unnamed : name_value g m b n ≡ minus_one)
      (exists : p < g.max_inode_count) (not_root : p ≢ 0) (unused : inodes p ≡ free)
      (small : p < 2 ^ 31) (lt : i < entry_count g)
      (vacant : is_vacant m (b * g.block_size) i ≡ true) where
    absent : dir_find m (b * g.block_size) (entry_count g) n ≡ none
    absent = dir_value-none m (b * g.block_size) (entry_count g) n (ap is_minus_one unnamed)

    here : name_value g (fill_entry m (b * g.block_size) i n (pos p)) b n ≡ pos p
    here =
        fill_entry-dir_value m (b * g.block_size) (entry_count g) i lt n (pos p) name small refl
          absent

    elsewhere :
        (t : List ℕ)
        → IsName t
        → t ≢ n
        → name_value g (fill_entry m (b * g.block_size) i n (pos p)) b t ≡ name_value g m b t
    elsewhere t ht ne =
        fill_entry-dir_value_ne m (b * g.block_size) (entry_count g) i lt n (pos p) name t ht.text
          ne vacant

    -- A name that leads to `q` now is the new one, or led there before.
    origin :
        (t : List ℕ) (q : ℕ)
        → IsName t
        → name_value g (fill_entry m (b * g.block_size) i n (pos p)) b t ≡ pos q
        → ((t ≡ n) × (p ≡ q)) ⊎ ((name_value g m b t ≡ pos q) × (p ≢ q))
    origin t q ht e = elim (texts-cases t n) [
      | inl same ↦
          let there : name_value g (fill_entry m (b * g.block_size) i n (pos p)) b t ≡ pos p =
            ap (name_value g (fill_entry m (b * g.block_size) i n (pos p)) b) same ∙ here in
          inl (same, let both : pos p ≡ pos q = sym there ∙ e in cc)
      | inr ne ↦
          let old = sym (elsewhere t ht ne) ∙ e in
          inr (old, used_apart inodes unused (name-IsLive t q ht old).in_use)
    ]

    new_file : IsLive g (update inodes p taken) p
    new_file = record { not_root = not_root; exists = exists; in_use = update_self inodes p taken }

    pub filled-WfNames :
        WfNames g (update inodes p taken) (fill_entry m (b * g.block_size) i n (pos p)) b
    filled-WfNames = record {
      directory = fill_entry-WfDir w.directory i n (pos p) name small refl absent;
      target = λ t ht. elim (texts-cases t n) [
        | inl same ↦ inr (
          p,
          ap (name_value g (fill_entry m (b * g.block_size) i n (pos p)) b) same ∙ here,
          new_file,
        )
        | inr ne ↦ elim (w.target t ht) [
          | inl e ↦ inl (elsewhere t ht ne ∙ e)
          | inr (q, e, l) ↦ inr (q, elsewhere t ht ne ∙ e, taken-IsLive p l)
        ]
      ];
      one_name = λ t u q ht hu et eu. elim (origin t q ht et) [
        | inl (e, f) ↦ elim (origin u q hu eu) [
          | inl (e', f') ↦ e ∙ sym e'
          | inr (old, ne) ↦ absurd (ne f)
        ]
        | inr (old, ne) ↦ elim (origin u q hu eu) [
          | inl (e, f) ↦ absurd (ne f)
          | inr (old', ne') ↦ w.one_name t u q ht hu old old'
        ]
      ];
      named = λ q l. elim (ℕ_discrete p q) [
        | yes e ↦ (n, name, here ∙ ap pos e)
        | no ne ↦
            let (t, ht, e) = w.named q (IsLive-taken p ne l) in
            (
              t,
              ht,
              elsewhere t ht (λ same.
                    let both : pos q ≡ minus_one = sym e ∙ ap (name_value g m b) same ∙ unnamed in
                    cc)
                  ∙ e,
            )
      ];
    }

  -- Name `n` of inode `p` is taken away, and the inode freed.
  pub erased-WfNames :
      (n : List ℕ) (p : ℕ) (m' : Bytes)
      → IsName n
      → name_value g m b n ≡ pos p
      → name_value g m' b n ≡ minus_one
      → ((t : List ℕ) → IsName t → t ≢ n → name_value g m' b t ≡ name_value g m b t)
      → WfDir m' (b * g.block_size) (entry_count g)
      → WfNames g (update inodes p free) m' b
  erased-WfNames n p m' name here gone elsewhere wf = record {
    directory = wf;
    target = λ t ht. elim (texts-cases t n) [
      | inl same ↦ inl (ap (name_value g m' b) same ∙ gone)
      | inr ne ↦ elim (w.target t ht) [
        | inl e ↦ inl (elsewhere t ht ne ∙ e)
        | inr (q, e, l) ↦ inr (
          q,
          elsewhere t ht ne ∙ e,
          freed-IsLive p (λ f. ne (w.one_name t n q ht name e (here ∙ ap pos f))) l,
        )
      ]
    ];
    one_name = λ t u q ht hu et eu. w.one_name t u q ht hu (before t q ht et) (before u q hu eu);
    named = λ q l.
        let (ne, l') = IsLive-freed p l in
        let (t, ht, e) = w.named q l' in
        (
          t,
          ht,
          elsewhere t ht (λ same.
                let both : pos q ≡ pos p = sym e ∙ ap (name_value g m b) same ∙ here in
                let equal : p ≡ q = cc in ne equal)
              ∙ e,
        );
  }
    where
      before :
          (t : List ℕ) (q : ℕ) → IsName t → name_value g m' b t ≡ pos q → name_value g m b t ≡ pos q
      before t q ht e = elim (texts-cases t n) [
        | inl same ↦ let both : pos q ≡ minus_one = sym e ∙ ap (name_value g m' b) same ∙ gone in cc
        | inr ne ↦ sym (elsewhere t ht ne) ∙ e
      ]
