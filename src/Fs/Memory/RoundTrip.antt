-- ===== src/Fs/Memory/RoundTrip.antt =====
-- What is read back after a write: bytes, integers and names.
use so_server_and_pipes.Base.{
  get_or-append_left, get_or-replicate, ℕ, zero, suc, ◌+◌, ◌-◌, ◌*◌, ◌/◌, ◌%◌, ◌^◌, ◌≤◌, ◌<◌, ◌≡◌,
  refl, ap, ◌∙◌, true, List, [], ◌∷◌, ◌++◌, arith, length, get_or, take, replicate, ℤ, pos, negsuc,
  eq→==, length-append, length-replicate, IsInt, signed32, unsigned32, signed32-unsigned32,
}
use so_server_and_pipes.Fs.Memory.{
  Bytes, write_bytes, read_bytes, store_int, load_int, str_eq_at, strn_eq_at, int_bytes,
  write_bytes-inside, IsText, strncpy_bytes,
}

-- A memory holds the bytes `bs` from address `a` on.
abbrev pub Holds : Bytes → ℕ → List ℕ → Type 0
Holds m a bs = (i : ℕ) → i < length bs → m (a + i) ≡ get_or bs i 0

pub write_bytes-Holds : (m : Bytes) (a : ℕ) (bs : List ℕ) → Holds (write_bytes m a bs) a bs
write_bytes-Holds m a bs i h = write_bytes-inside m a bs i h

pub Holds-tail : (m : Bytes) (a b : ℕ) (bs : List ℕ) → Holds m a (b ∷ bs) → Holds m (a + 1) bs
Holds-tail m a b bs h i lt = ap m (omega arith) ∙ h (suc i) (omega arith)

pub Holds-head : (m : Bytes) (a b : ℕ) (bs : List ℕ) → Holds m a (b ∷ bs) → m a ≡ b
Holds-head m a b bs h = ap m (omega arith) ∙ h 0 (omega arith)

pub Holds-append : (m : Bytes) (a : ℕ) (bs cs : List ℕ) → Holds m a (bs ++ cs) → Holds m a bs
Holds-append m a bs cs h i lt =
    h i (omega (arith, length-append bs cs)) ∙ get_or-append_left bs cs i 0 lt

pub read_bytes-Holds :
    (m : Bytes) (a : ℕ) (bs : List ℕ) → Holds m a bs → read_bytes m a (length bs) ≡ bs
read_bytes-Holds m a [] h = refl
read_bytes-Holds m a (b ∷ bs) h =
    rw (Holds-head m a b bs h, read_bytes-Holds m (a + 1) bs (Holds-tail m a b bs h))

-- The bytes of a write are read back.
pub read_bytes-write_bytes :
    (m : Bytes) (a : ℕ) (bs : List ℕ) → read_bytes (write_bytes m a bs) a (length bs) ≡ bs
read_bytes-write_bytes m a bs = read_bytes-Holds _ a bs (write_bytes-Holds m a bs)

int_bytes_sum :
    (u : ℕ)
    → u < 2 ^ 32
    → u % 256 + 256 * (u / 256 % 256) + 65536 * (u / 65536 % 256) + 16777216 * (u / 16777216 % 256)
      ≡ u
int_bytes_sum u h = omega arith

unsigned32-lt : (v : ℤ) → unsigned32 v < 2 ^ 32
unsigned32-lt (pos n) = omega arith
unsigned32-lt (negsuc n) = omega arith

pub load_int-Holds :
    (m : Bytes) (a : ℕ) (v : ℤ) → IsInt v → Holds m a (int_bytes v) → load_int m a ≡ v
unfolding load_int
load_int-Holds m a v range h =
    let u = unsigned32 v in
    let b₀ : m a ≡ u % 256 = ap m (omega arith) ∙ h 0 (omega arith) in
    rw (b₀, h 1 (omega arith), h 2 (omega arith), h 3 (omega arith))
      (ap signed32 (int_bytes_sum u (unsigned32-lt v)) ∙ signed32-unsigned32 v range)

pub load_int-store_int : (m : Bytes) (a : ℕ) (v : ℤ) → IsInt v → load_int (store_int m a v) a ≡ v
unfolding store_int
load_int-store_int m a v range = load_int-Holds _ a v range (write_bytes-Holds m a (int_bytes v))

-- A name of at most 39 bytes that stands in memory with a NUL behind it is equal to a string just
-- if the string is that name.
pub strn_eq_at_self :
    (m : Bytes) (a : ℕ) (s : List ℕ) (n : ℕ) → Holds m a (s ++ 0 ∷ []) → strn_eq_at m a s n ≡ true
strn_eq_at_self m a s zero h = refl
strn_eq_at_self m a [] (suc n) h = eq→== (m a) 0 (Holds-head m a 0 [] h)
strn_eq_at_self m a (c ∷ cs) (suc n) h = rw (
  eq→== (m a) c (Holds-head m a c (cs ++ 0 ∷ []) h),
  strn_eq_at_self m (a + 1) cs n (Holds-tail m a c (cs ++ 0 ∷ []) h),
)

pub strn_eq_at-eq :
    (m : Bytes) (a : ℕ) (s t : List ℕ) (n : ℕ)
    → IsText s
    → IsText t
    → length s < n
    → Holds m a (s ++ 0 ∷ [])
    → strn_eq_at m a t n ≡ true
    → t ≡ s
strn_eq_at-eq m a s t zero hs ht lt h e = absurd (omega arith)
strn_eq_at-eq m a [] [] (suc n) hs ht lt h e = refl
strn_eq_at-eq m a [] (c ∷ cs) (suc n) hs ht lt h e = ground (arith, Holds-head m a 0 [] h)
strn_eq_at-eq m a (b ∷ bs) [] (suc n) hs ht lt h e =
    ground (arith, Holds-head m a b (bs ++ 0 ∷ []) h)
strn_eq_at-eq m a (b ∷ bs) (c ∷ cs) (suc n) hs ht lt h e = ground (
  arith,
  Holds-head m a b (bs ++ 0 ∷ []) h,
  strn_eq_at-eq m (a + 1) bs cs n hs.1 ht.1 (omega arith) (Holds-tail m a b (bs ++ 0 ∷ []) h),
)

pub str_eq_at_self :
    (m : Bytes) (a : ℕ) (s : List ℕ) → Holds m a (s ++ 0 ∷ []) → str_eq_at m a s ≡ true
str_eq_at_self m a [] h = eq→== (m a) 0 (Holds-head m a 0 [] h)
str_eq_at_self m a (c ∷ cs) h = rw (
  eq→== (m a) c (Holds-head m a c (cs ++ 0 ∷ []) h),
  str_eq_at_self m (a + 1) cs (Holds-tail m a c (cs ++ 0 ∷ []) h),
)

pub str_eq_at-eq :
    (m : Bytes) (a : ℕ) (s t : List ℕ)
    → IsText s
    → IsText t
    → Holds m a (s ++ 0 ∷ [])
    → str_eq_at m a t ≡ true
    → t ≡ s
str_eq_at-eq m a [] [] hs ht h e = refl
str_eq_at-eq m a [] (c ∷ cs) hs ht h e = ground (arith, Holds-head m a 0 [] h)
str_eq_at-eq m a (b ∷ bs) [] hs ht h e = ground (arith, Holds-head m a b (bs ++ 0 ∷ []) h)
str_eq_at-eq m a (b ∷ bs) (c ∷ cs) hs ht h e = ground (
  arith,
  Holds-head m a b (bs ++ 0 ∷ []) h,
  str_eq_at-eq m (a + 1) bs cs hs.1 ht.1 (Holds-tail m a b (bs ++ 0 ∷ []) h),
)

-- A string in memory that agrees with a stored name on its first 40 bytes agrees with it whole.
take-all : (s : List ℕ) (n : ℕ) → length s ≤ n → take n s ≡ s
take-all [] zero h = refl
take-all [] (suc n) h = refl
take-all (c ∷ cs) zero h = absurd (omega arith)
take-all (c ∷ cs) (suc n) h = ap (◌∷◌ c) (take-all cs n (omega arith))

pub strncpy_bytes-eq :
    (s : List ℕ) (n : ℕ) → length s ≤ n → strncpy_bytes s n ≡ s ++ replicate (n - length s) 0
strncpy_bytes-eq s n h = rw (take-all s n h)

pub length-strncpy_bytes : (s : List ℕ) (n : ℕ) → length s ≤ n → length (strncpy_bytes s n) ≡ n
length-strncpy_bytes s n h =
    rw
      (
        strncpy_bytes-eq s n h,
        length-append s (replicate (n - length s) 0),
        length-replicate {A = ℕ} (n - length s) 0,
      )
      (omega arith)

-- Past the end of a name the padding reads as zero, as a read out of range does.
pub get_or-append_zeros : (s : List ℕ) (j k : ℕ) → get_or (s ++ replicate j 0) k 0 ≡ get_or s k 0
get_or-append_zeros [] j k = get_or-replicate {A = ℕ} j k 0
get_or-append_zeros (c ∷ cs) j zero = refl
get_or-append_zeros (c ∷ cs) j (suc k) = get_or-append_zeros cs j k

pub get_or-beyond : (s : List ℕ) (k : ℕ) → length s ≤ k → get_or s k 0 ≡ 0
get_or-beyond [] k h = refl
get_or-beyond (c ∷ cs) zero h = absurd (omega arith)
get_or-beyond (c ∷ cs) (suc k) h = get_or-beyond cs k (omega arith)
