-- ===== src/Base/Ints.antt =====
-- Signed integers over the native numbers, and the conversions between C's integer types.
use Prim.Native.Nat.{ℕ, ◌+◌, ◌*◌, ◌-◌, ◌%◌, ◌^◌, ◌<◌}
use mathlib.Core.Path.{◌≡◌}
use mathlib.Core.Bool.{Bool, false}
use native.Mathlib.Omega.{arith}
use so_server_and_pipes.Base.Tests.{ltb, ◌==◌, if◌then◌else◌}

-- `negsuc n` is -(n + 1).
pub data ℤ : Type 0 where
  pos : ℕ → ℤ
  negsuc : ℕ → ℤ

-- The value -1, by which the code reports an error.
abbrev pub minus_one : ℤ
minus_one = negsuc 0

-- `x == -1`
abbrev pub is_minus_one : ℤ → Bool
is_minus_one (pos n) = false
is_minus_one (negsuc n) = n == 0

-- The number that a pattern of 32 bits stands for as an `int`.
abbrev pub signed32 : ℕ → ℤ
signed32 w = if ltb w (2 ^ 31) then pos w else negsuc (2 ^ 32 - w - 1)

-- The pattern of an `int`.
abbrev pub unsigned32 : ℤ → ℕ
unsigned32 (pos n) = n % 2 ^ 32
unsigned32 (negsuc n) = 2 ^ 32 - 1 - n % 2 ^ 32

-- `(int)n` of a `size_t`.
unfoldable pub int_of_size : ℕ → ℤ
int_of_size n = signed32 (n % 2 ^ 32)

-- `(ssize_t)n` of a `size_t`.
unfoldable pub ssize_of_size : ℕ → ℤ
ssize_of_size n = if ltb n (2 ^ 63) then pos n else negsuc (2 ^ 64 - n - 1)

-- The values of the C type `int`.
abbrev pub IsInt : ℤ → Type 0
IsInt (pos n) = n < 2 ^ 31
IsInt (negsuc n) = n < 2 ^ 31

pub int_of_size-pos : (n : ℕ) → n < 2 ^ 31 → int_of_size n ≡ pos n
unfolding int_of_size
int_of_size-pos n h = ground arith

pub ssize_of_size-pos : (n : ℕ) → n < 2 ^ 63 → ssize_of_size n ≡ pos n
unfolding ssize_of_size
ssize_of_size-pos n h = ground arith

pub signed32-unsigned32 : (v : ℤ) → IsInt v → signed32 (unsigned32 v) ≡ v
signed32-unsigned32 (pos n) h = ground arith
signed32-unsigned32 (negsuc n) h = ground arith

-- The sum, the difference and the product of two values of type `size_t`.
abbrev pub add_size : ℕ → ℕ → ℕ
add_size a b = (a + b) % 2 ^ 64

abbrev pub sub_size : ℕ → ℕ → ℕ
sub_size a b = (a + 2 ^ 64 - b) % 2 ^ 64

abbrev pub mul_size : ℕ → ℕ → ℕ
mul_size a b = a * b % 2 ^ 64
