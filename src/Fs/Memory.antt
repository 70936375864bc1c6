-- ===== src/Fs/Memory.antt =====
-- The bytes of `fs_data`, an address to a byte, and what memcpy, strncpy, strcmp and strncmp do on
-- it. A C string is the list of its bytes without the final NUL.
pub mod Frame
pub mod RoundTrip
use so_server_and_pipes.Base.{
  ◌⊎◌, ℕ, zero, suc, ◌+◌, ◌-◌, ◌*◌, ◌/◌, ◌%◌, ◌≤◌, ◌<◌, ◌≡◌, ap, Bool, true, ◌&&◌, List, [], ◌∷◌,
  ◌++◌, arith, ltb, leb, ◌==◌, if◌then◌else◌, length, get_or, take, replicate, ℤ, signed32,
  unsigned32,
}

abbrev pub Bytes : Type 0
Bytes = ℕ → ℕ

-- `memcpy(&m[a], bs, length bs)`
unfoldable pub write_bytes : Bytes → ℕ → List ℕ → Bytes
write_bytes m a bs x = if leb a x && ltb x (a + length bs) then get_or bs (x - a) 0 else m x

-- The `n` bytes from address `a` on.
abbrev pub read_bytes : Bytes → ℕ → ℕ → List ℕ
read_bytes m a zero = []
read_bytes m a (suc n) = m a ∷ read_bytes m (a + 1) n

-- The four bytes of an `int`, the lowest first.
abbrev pub int_bytes : ℤ → List ℕ
int_bytes v =
    let u = unsigned32 v in u % 256 ∷ u / 256 % 256 ∷ u / 65536 % 256 ∷ u / 16777216 % 256 ∷ []

unfoldable pub store_int : Bytes → ℕ → ℤ → Bytes
unfolding write_bytes
store_int m a v = write_bytes m a (int_bytes v)

unfoldable pub load_int : Bytes → ℕ → ℤ
load_int m a = signed32 (m a + 256 * m (a + 1) + 65536 * m (a + 2) + 16777216 * m (a + 3))

-- `strcmp(&m[a], s) == 0`: every byte of `s` and then a NUL.
abbrev pub str_eq_at : Bytes → ℕ → List ℕ → Bool
str_eq_at m a [] = m a == 0
str_eq_at m a (c ∷ cs) = m a == c && str_eq_at m (a + 1) cs

-- The bytes from `&m[a]` on that this strcmp reads, to the first that differs or the NUL.
abbrev pub strcmp_reads : Bytes → ℕ → List ℕ → ℕ
strcmp_reads m a [] = 1
strcmp_reads m a (c ∷ cs) = let rest = strcmp_reads m (a + 1) cs in if m a == c then suc rest else 1

-- `strncmp(&m[a], s, n) == 0`: the same, but for the first `n` bytes only.
abbrev pub strn_eq_at : Bytes → ℕ → List ℕ → ℕ → Bool
strn_eq_at m a s zero = true
strn_eq_at m a [] (suc n) = m a == 0
strn_eq_at m a (c ∷ cs) (suc n) = m a == c && strn_eq_at m (a + 1) cs n

-- The `n` bytes that `strncpy(d, s, n)` writes: the string, cut at `n`, and NULs up to `n`.
abbrev pub strncpy_bytes : List ℕ → ℕ → List ℕ
strncpy_bytes s n = take n s ++ replicate (n - length s) 0

-- The bytes of a C string are not NUL.
abbrev pub IsText : List ℕ → Type 0
IsText [] = Unit {0}
IsText (c ∷ cs) = (0 < c) × IsText cs

-- Two memories hold the same bytes on `n` addresses from `a` on.
abbrev pub Same : Bytes → Bytes → ℕ → ℕ → Type 0
Same m m' a n = (x : ℕ) → a ≤ x → x < a + n → m x ≡ m' x

pub write_bytes-outside :
    (m : Bytes) (a : ℕ) (bs : List ℕ) (x : ℕ)
    → (x < a) ⊎ (a + length bs ≤ x)
    → write_bytes m a bs x ≡ m x
unfolding write_bytes
write_bytes-outside m a bs x h = ground arith

pub write_bytes-inside :
    (m : Bytes) (a : ℕ) (bs : List ℕ) (i : ℕ)
    → i < length bs
    → write_bytes m a bs (a + i) ≡ get_or bs i 0
unfolding write_bytes
write_bytes-inside m a bs i h =
    let e : a + i - a ≡ i = omega arith in ground (arith, ap (λ k. get_or bs k 0) e)
