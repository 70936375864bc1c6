-- ===== src/Base/Search.antt =====
-- `for (i = ...; i < n; i++) if (test(i)) return i;`, the loop by which every table is searched.
use Prim.Native.Nat.{ℕ, zero, suc, ◌+◌, ◌≤◌, ◌<◌}
use mathlib.Core.Path.{◌≡◌, refl}
use mathlib.Core.Logic.{◌⊎◌, inl, inr}
use mathlib.Core.Bool.{Bool, true, false}
use mathlib.Core.Option.{Option, none, some}
use native.Mathlib.Omega.{arith}
use so_server_and_pipes.Base.Tests.{if◌then◌else◌, Bool-cases}

-- The first index from `i` on, within `k` rounds, that passes the test.
unfoldable pub find_from : (ℕ → Bool) → ℕ → ℕ → Option ℕ
find_from test zero i = none
find_from test (suc k) i = let rest = find_from test k (i + 1) in if test i then some i else rest

-- The first index below `n` that passes the test.
abbrev pub find_below : (ℕ → Bool) → ℕ → Option ℕ
find_below test n = find_from test n 0

-- What the search says: nothing passes, or `r` is the first to pass.
pub record IsFirst (test : ℕ → Bool) (lo hi r : ℕ) : Type 0 where
  pub from : lo ≤ r
  pub below : r < hi
  pub passes : test r ≡ true
  pub before : (j : ℕ) → lo ≤ j → j < r → test j ≡ false

abbrev pub Finds : (ℕ → Bool) → ℕ → ℕ → Option ℕ → Type 0
Finds test lo hi o =
    ((o ≡ none) × ((j : ℕ) → lo ≤ j → j < hi → test j ≡ false))
    ⊎ ((r : ℕ) × (o ≡ some r) × IsFirst test lo hi r)

-- The step of the search at an index that fails the test.
Finds-next :
    (test : ℕ → Bool) (lo hi : ℕ) (o : Option ℕ)
    → test lo ≡ false
    → Finds test (lo + 1) hi o
    → Finds test lo hi o
Finds-next test lo hi o fails (inl (e, all)) = inl (e, λ j hl hh. ground (arith, all j))
Finds-next test lo hi o fails (inr (r, e, first)) = inr (
  r,
  e,
  record {
    from = omega arith;
    below = first.below;
    passes = first.passes;
    before = λ j hl hr. ground (arith, first.before j);
  },
)

pub find_from-Finds :
    (test : ℕ → Bool) (k lo hi : ℕ) → lo + k ≡ hi → Finds test lo hi (find_from test k lo)
unfolding find_from
find_from-Finds test zero lo hi e = inl (refl, λ j hl hh. absurd (omega arith))
find_from-Finds test (suc k) lo hi e = elim (Bool-cases (test lo)) [
  | inl t ↦ rw t (
      inr (
        lo,
        refl,
        record {
          from = omega arith;
          below = omega arith;
          passes = t;
          before = λ j hl hr. absurd (omega arith);
        },
      ))
  | inr f ↦ rw f (
      Finds-next test lo hi (find_from test k (lo + 1)) f
        (find_from-Finds test k (lo + 1) hi (omega arith)))
]

pub find_below-Finds : (test : ℕ → Bool) (n : ℕ) → Finds test 0 n (find_below test n)
find_below-Finds test n = find_from-Finds test n 0 n (omega arith)

-- The first that passes is what the search returns.
pub find_from-first :
    (test : ℕ → Bool) (k lo r : ℕ)
    → r < lo + k
    → lo ≤ r
    → test r ≡ true
    → ((j : ℕ) → lo ≤ j → j < r → test j ≡ false)
    → find_from test k lo ≡ some r
unfolding find_from
find_from-first test zero lo r below from passes before = absurd (omega arith)
find_from-first test (suc k) lo r below from passes before = elim (Bool-cases (test lo)) [
  | inl t ↦ ground (arith, before lo)
  | inr f ↦ rw f (
      find_from-first test k (lo + 1) r (omega arith) (ground arith) passes
        (λ j hl hr. before j (omega arith) hr))
]

-- The search returns nothing when nothing passes.
pub find_from-none :
    (test : ℕ → Bool) (k lo : ℕ)
    → ((j : ℕ) → lo ≤ j → j < lo + k → test j ≡ false)
    → find_from test k lo ≡ none
unfolding find_from
find_from-none test zero lo all = refl
find_from-none test (suc k) lo all =
    rw (all lo (omega arith) (omega arith))
      (find_from-none test k (lo + 1) (λ j hl hh. all j (omega arith) (omega arith)))

-- Tests that agree on the range find the same index.
pub find_from-congr :
    (p q : ℕ → Bool) (k lo : ℕ)
    → ((j : ℕ) → lo ≤ j → j < lo + k → p j ≡ q j)
    → find_from p k lo ≡ find_from q k lo
unfolding find_from
find_from-congr p q zero lo same = refl
find_from-congr p q (suc k) lo same = rw (
  same lo (omega arith) (omega arith),
  find_from-congr p q k (lo + 1) (λ j hl hh. same j (omega arith) (omega arith)),
)

-- A search that returns nothing has met no index that passes.
pub find_below-none :
    (test : ℕ → Bool) (n : ℕ) → find_below test n ≡ none → (j : ℕ) → j < n → test j ≡ false
find_below-none test n e j h = elim (find_below-Finds test n) [
  | inl (e', all) ↦ all j (omega arith) h
  | inr (r, e', first) ↦ cc
]

-- An index that a search returns is the first to pass.
pub find_below-some : (test : ℕ → Bool) (n r : ℕ) → find_below test n ≡ some r → IsFirst test 0 n r
find_below-some test n r e = elim (find_below-Finds test n) [
  | inl (e', all) ↦ cc
  | inr (r', e', first) ↦ let same : r' ≡ r = cc in rw same at first
]
