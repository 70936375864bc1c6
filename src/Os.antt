-- ===== src/Os.antt =====
-- The system calls of the programs: the results that they get, in order, and the calls that they make.
use so_server_and_pipes.Base.{
  ltb, ℕ, ◌≡◌, ap, Bool, true, false, Option, none, some, List, [], ◌∷◌, ◌++◌, ℤ, pos, negsuc,
}

-- What a call returns; the bytes that a read puts into the buffer; whether errno is ENOENT.
pub record Answer : Type 0 where
  pub result : ℤ
  pub bytes : List ℕ
  pub enoent : Bool

-- The calls, with what they are given. A path and a text are bytes without the NUL. A write names the
-- bytes with which its buffer begins and the number of bytes it writes: a text, a NUL, and then what
-- the buffer held before.
pub data Call : Type 0 where
  call_open : List ℕ → Call
  call_close : ℤ → Call
  call_read : ℤ → ℕ → Call
  call_write : ℤ → List ℕ → ℕ → Call
  call_unlink : List ℕ → Call
  call_mkfifo : List ℕ → Call
  call_signal : Call
  call_print : List ℕ → Call

-- The results that are still to come, and the calls made, the first first.
pub record Os : Type 0 where
  pub answers : List Answer
  pub calls : List Call

-- How a program over a state ends: with a value; by exit; in a call that has not returned; or with an
-- access outside an object, of which C says nothing.
pub data Ran {ℓ} (S : Type 0) (A : Type ℓ) : Type ℓ where
  done : A → S → Ran S A
  exited : ℤ → S → Ran S A
  waiting : S → Ran S A
  outside : S → Ran S A

abbrev pub Prog {ℓ} : Type 0 → Type ℓ → Type ℓ
Prog S A = S → Ran S A

abbrev pub pure {ℓ} : {S : Type 0} {A : Type ℓ} → A → Prog S A
pure a s = done a s

abbrev pub and_then {ℓ κ} :
    {S : Type 0} {A : Type ℓ} {B : Type κ} → Ran S A → (A → Prog S B) → Ran S B
and_then (done a s) k = k a s
and_then (exited c s) k = exited c s
and_then (waiting s) k = waiting s
and_then (outside s) k = outside s

infixl 5 ◌>>=◌ ◌>>◌
abbrev pub ◌>>=◌ {ℓ κ} :
    {S : Type 0} {A : Type ℓ} {B : Type κ} → Prog S A → (A → Prog S B) → Prog S B
◌>>=◌ m k s = and_then (m s) k

abbrev pub ◌>>◌ {ℓ κ} : {S : Type 0} {A : Type ℓ} {B : Type κ} → Prog S A → Prog S B → Prog S B
m >> k = m >>= λ _. k

abbrev pub exit {ℓ} : {S : Type 0} {A : Type ℓ} → ℤ → Prog S A
exit code s = exited code s

-- `if (c) exit(code);`
abbrev pub exit_if : {S : Type 0} → Bool → ℤ → Prog S (Unit {0})
exit_if true code s = exited code s
exit_if false code s = done tt s

-- A value, or an access outside an object.
abbrev pub need {ℓ} : {S : Type 0} {A : Type ℓ} → Option A → Prog S A
need none s = outside s
need (some a) s = done a s

abbrev pub stray {ℓ} : {S : Type 0} {A : Type ℓ} → Prog S A
stray s = outside s

-- The value EXIT_FAILURE; EXIT_SUCCESS is 0.
abbrev pub exit_failure : ℤ
exit_failure = pos 1

abbrev pub is_negative : ℤ → Bool
is_negative (pos n) = false
is_negative (negsuc n) = true

abbrev pub is_positive : ℤ → Bool
is_positive (pos n) = ltb 0 n
is_positive (negsuc n) = false

-- The call `c`: it gets the next answer, and has not returned if there is none.
abbrev pub answer_to : Call → List Answer → List Call → Ran Os Answer
answer_to c [] calls = waiting (record { answers = []; calls = calls ++ c ∷ [] })
answer_to c (a ∷ as') calls = done a (record { answers = as'; calls = calls ++ c ∷ [] })

abbrev pub sys : Call → Prog Os Answer
sys c os = answer_to c os.answers os.calls

-- A line printed, of which nothing is asked.
abbrev pub print : List ℕ → Prog Os (Unit {0})
print text os = done tt (record os { calls = os.calls ++ call_print text ∷ [] })

-- A call that has not returned keeps what follows it from running.
pub and_then-waiting {ℓ κ} :
    {S : Type 0} {A : Type ℓ} {B : Type κ} (r : Ran S A) (k : A → Prog S B) (s : S)
    → r ≡ waiting s
    → and_then r k ≡ waiting s
and_then-waiting r k s e = ap (λ z. and_then z k) e

pub sys-waiting :
    (c : Call) (os : Os)
    → os.answers ≡ []
    → sys c os ≡ waiting (record { answers = []; calls = os.calls ++ c ∷ [] })
sys-waiting c os e = ap (λ l. answer_to c l os.calls) e
