-- ===== src/Fs/Inv/Tables.antt =====
-- Tables after a change at one index, and the files in use after one is taken or freed.
use so_server_and_pipes.Base.{
  ℕ, ◌≡◌, refl, sym, ap, ◌∙◌, ◌≢◌, ◌⊎◌, inl, inr, true, arith, update, update_self, update-ne,
}
use so_server_and_pipes.Base.{subst}
use native.Mathlib.Decide.{ℕ_discrete}
use so_server_and_pipes.Fs.Exec.{Params, Inode, AllocationState, taken, free, is_free}
use so_server_and_pipes.Base.{fun_ext}
use so_server_and_pipes.Fs.Inv.{taken, AllocationState, Inode, Params, IsLive, Stores}
use so_server_and_pipes.Base.{
  update-ne, update_self, inr, ◌∙◌, sym, inl, ◌⊎◌, ap, arith, ◌≢◌, update, ◌≡◌, ℕ, subst,
}

-- A table after a change at `p`: the value is the new one at `p` and the old one elsewhere.
pub update-cases :
    {A : Type 0} (f : ℕ → A) (p : ℕ) (v : A) (q : ℕ)
    → ((p ≡ q) × (update f p v q ≡ v)) ⊎ ((p ≢ q) × (update f p v q ≡ f q))
update-cases f p v q = elim (ℕ_discrete p q) [
  | yes e ↦ inl (e, subst (λ z. update f p v z ≡ v) e (update_self f p v))
  | no ne ↦ inr (ne, update-ne f p v q ne)
]

-- Of two changes at one index the second counts.
pub update-update :
    {A : Type 0} (f : ℕ → A) (p : ℕ) (v v' : A) → update (update f p v) p v' ≡ update f p v'
update-update f p v v' = fun_ext (λ q. elim (update-cases f p v' q) [
  | inl (e, here) ↦
      subst (λ z. update (update f p v) p v' z ≡ update f p v' z) e
        (update_self (update f p v) p v' ∙ sym (update_self f p v'))
  | inr (ne, same) ↦
      update-ne (update f p v) p v' q ne ∙ update-ne f p v q ne ∙ sym (update-ne f p v' q ne)
])

-- A change to what is there already.
pub update-same : {A : Type 0} (f : ℕ → A) (p : ℕ) (v : A) → f p ≡ v → update f p v ≡ f
update-same f p v here = fun_ext (λ q. elim (update-cases f p v q) [
  | inl (e, there) ↦ there ∙ sym here ∙ ap f e
  | inr (ne, same) ↦ same
])

-- Stores at `q`, when the inode there is the same.
pub Stores-same :
    {nodes nodes' : ℕ → Inode} {q c : ℕ} → nodes' q ≡ nodes q → Stores nodes q c → Stores nodes' q c
Stores-same e h = record {
  some_bytes = omega (arith, ap (λ x. x.i_size) e, h.some_bytes);
  block = ap (λ x. x.i_data_block) e ∙ h.block;
}

-- An index that is taken after a change of an allocation table.
pub taken-cases :
    (t : ℕ → AllocationState) (p : ℕ) {q : ℕ}
    → update t p taken q ≡ taken
    → (p ≡ q) ⊎ ((p ≢ q) × (t q ≡ taken))
taken-cases t p {q} h = elim (update-cases t p taken q) [
  | inl (e, here) ↦ inl e
  | inr (ne, same) ↦ inr (ne, sym same ∙ h)
]

pub free-cases :
    (t : ℕ → AllocationState) (p : ℕ) {q : ℕ} → update t p free q ≡ taken → (p ≢ q) × (t q ≡ taken)
free-cases t p {q} h = elim (update-cases t p free q) [
  | inl (e, here) ↦ let used = ap is_free (sym here ∙ h) in cc
  | inr (ne, same) ↦ (ne, sym same ∙ h)
]

pub taken_kept :
    (t : ℕ → AllocationState) (p : ℕ) {q : ℕ} → t q ≡ taken → update t p taken q ≡ taken
taken_kept t p {q} h = elim (update-cases t p taken q) [
  | inl (e, here) ↦ here
  | inr (ne, same) ↦ same ∙ h
]

pub is_free-free : (a : AllocationState) → is_free a ≡ true → a ≡ free
is_free-free free e = refl
is_free-free taken e = cc

-- What is in use is not what is free.
pub used_apart : (t : ℕ → AllocationState) {p q : ℕ} → t p ≡ free → t q ≡ taken → p ≢ q
used_apart t {p} {q} h h' e =
    let moved = ap (λ z. is_free (t z)) e in let f = ap is_free h in let u = ap is_free h' in cc

module _ {g : Params} {inodes : ℕ → AllocationState} {q : ℕ} (p : ℕ) where
  pub taken-IsLive : IsLive g inodes q → IsLive g (update inodes p taken) q
  taken-IsLive l = record {
    not_root = l.not_root;
    exists = l.exists;
    in_use = taken_kept inodes p l.in_use;
  }

  pub freed-IsLive : p ≢ q → IsLive g inodes q → IsLive g (update inodes p free) q
  freed-IsLive ne l = record {
    not_root = l.not_root;
    exists = l.exists;
    in_use = update-ne inodes p free q ne ∙ l.in_use;
  }

  pub IsLive-taken : p ≢ q → IsLive g (update inodes p taken) q → IsLive g inodes q
  IsLive-taken ne l = record {
    not_root = l.not_root;
    exists = l.exists;
    in_use = sym (update-ne inodes p taken q ne) ∙ l.in_use;
  }

  pub IsLive-freed : IsLive g (update inodes p free) q → (p ≢ q) × IsLive g inodes q
  IsLive-freed l =
      let (ne, used) = free-cases inodes p l.in_use in
      (ne, record { not_root = l.not_root; exists = l.exists; in_use = used })
