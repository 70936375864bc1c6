-- ===== src/Fs/Memory/Frame.antt =====
-- What a read of memory depends on: the bytes of its own range.
use so_server_and_pipes.Base.{
  ℕ, zero, suc, ◌+◌, ◌≤◌, ◌≡◌, refl, ◌∙◌, ◌⊎◌, List, [], ◌∷◌, arith, length, ℤ,
}
use so_server_and_pipes.Fs.Memory.{
  Bytes, write_bytes, read_bytes, store_int, load_int, str_eq_at, strn_eq_at, Same, int_bytes,
  write_bytes-outside,
}

-- A range apart from the one that is written keeps its bytes.
pub write_bytes-Same :
    (m : Bytes) (a : ℕ) (bs : List ℕ) (x n : ℕ)
    → (x + n ≤ a) ⊎ (a + length bs ≤ x)
    → Same (write_bytes m a bs) m x n
write_bytes-Same m a bs x n apart y lo hi = write_bytes-outside m a bs y (omega arith)

pub store_int-Same :
    (m : Bytes) (a : ℕ) (v : ℤ) (x n : ℕ) → (x + n ≤ a) ⊎ (a + 4 ≤ x) → Same (store_int m a v) m x n
unfolding store_int
store_int-Same m a v x n apart = write_bytes-Same m a (int_bytes v) x n (omega arith)

pub Same-trans : (m m' m'' : Bytes) (a n : ℕ) → Same m m' a n → Same m' m'' a n → Same m m'' a n
Same-trans m m' m'' a n h h' x lo hi = h x lo hi ∙ h' x lo hi

-- A part of a range.
pub Same-part : (m m' : Bytes) (a n b k : ℕ) → a ≤ b → b + k ≤ a + n → Same m m' a n → Same m m' b k
Same-part m m' a n b k lo hi h x hl hh = h x (omega arith) (omega arith)

pub load_int-Same : (m m' : Bytes) (a : ℕ) → Same m m' a 4 → load_int m a ≡ load_int m' a
unfolding load_int
load_int-Same m m' a h = rw (
  h a (omega arith) (omega arith),
  h (a + 1) (omega arith) (omega arith),
  h (a + 2) (omega arith) (omega arith),
  h (a + 3) (omega arith) (omega arith),
)

pub strn_eq_at-Same :
    (m m' : Bytes) (s : List ℕ) (n a : ℕ) → Same m m' a n → strn_eq_at m a s n ≡ strn_eq_at m' a s n
strn_eq_at-Same m m' s zero a h = refl
strn_eq_at-Same m m' [] (suc n) a h = rw (h a (omega arith) (omega arith))
strn_eq_at-Same m m' (c ∷ cs) (suc n) a h = rw (
  h a (omega arith) (omega arith),
  strn_eq_at-Same m m' cs n (a + 1)
      (Same-part m m' a (suc n) (a + 1) n (omega arith) (omega arith) h),
)

pub str_eq_at-Same :
    (m m' : Bytes) (s : List ℕ) (a : ℕ)
    → Same m m' a (length s + 1)
    → str_eq_at m a s ≡ str_eq_at m' a s
str_eq_at-Same m m' [] a h = rw (h a (omega arith) (omega arith))
str_eq_at-Same m m' (c ∷ cs) a h = rw (
  h a (omega arith) (omega arith),
  str_eq_at-Same m m' cs (a + 1) (
      Same-part m m' a (suc (length cs) + 1) (a + 1) (length cs + 1) (omega arith) (omega arith) h),
)

pub read_bytes-Same :
    (m m' : Bytes) (n a : ℕ) → Same m m' a n → read_bytes m a n ≡ read_bytes m' a n
read_bytes-Same m m' zero a h = refl
read_bytes-Same m m' (suc n) a h = rw (
  h a (omega arith) (omega arith),
  read_bytes-Same m m' n (a + 1) (Same-part m m' a (suc n) (a + 1) n (omega arith) (omega arith) h),
)
