-- ===== src/Task/Text.antt =====
-- A string written into a task is read back, and what is printed begins with a digit.
use so_server_and_pipes.Base.{
  subst, ℕ, zero, suc, ◌+◌, ◌-◌, ◌/◌, ◌%◌, ◌≤◌, ◌<◌, ◌≡◌, refl, sym, ap, inl, inr, Option, none,
  some, List, [], ◌∷◌, ◌++◌, arith, ltb, ◌==◌, length, take, Bool-cases, Option-cases, ne→==,
}
use so_server_and_pipes.Fs.Memory.{Bytes, IsText}
use so_server_and_pipes.Fs.Memory.RoundTrip.{Holds, Holds-head, Holds-tail}
use so_server_and_pipes.Task.{
  string_at, task_size, joined, field, opcode, pipe_path, box_name, task_to_string, digits,
  print_byte, cut,
}

-- A string with a NUL behind it is what is read at its address.
pub string_at-Holds :
    (m : Bytes) (a : ℕ) (s : List ℕ) (k : ℕ)
    → IsText s
    → length s < k
    → Holds m a (s ++ 0 ∷ [])
    → string_at m a k ≡ some s
unfolding string_at
string_at-Holds m a s zero text lt holds = absurd (omega arith)
string_at-Holds m a [] (suc k) text lt holds =
    let nul = Holds-head m a 0 [] holds in
    elim (Option-cases (string_at m (a + 1) k)) [ inl e ↦ rw (e, nul) | inr (s, e) ↦ rw (e, nul) ]
string_at-Holds m a (c ∷ cs) (suc k) (some_char, text) lt holds =
    let first = Holds-head m a c (cs ++ 0 ∷ []) holds in
    let below : length cs < k = omega (arith, lt) in
    let rest = string_at-Holds m (a + 1) cs k text below (Holds-tail m a c (cs ++ 0 ∷ []) holds) in
    rw (rest, first, ne→== c 0 (λ e. omega (arith, e)))

-- The printed digits of a number begin with a digit.
pub record IsPrinted (s : List ℕ) : Type 0 where
  pub first : ℕ
  pub others : List ℕ
  pub parts : s ≡ first ∷ others
  pub digit : (48 ≤ first) × (first ≤ 57)

IsPrinted-cons : (c : ℕ) (cs : List ℕ) → 48 ≤ c → c ≤ 57 → IsPrinted (c ∷ cs)
IsPrinted-cons c cs lo hi = record { first = c; others = cs; parts = refl; digit = (lo, hi) }

digits-IsPrinted : (k n : ℕ) (out : List ℕ) → IsPrinted out → IsPrinted (digits k n out)
unfolding digits
digits-IsPrinted zero n out h = h
digits-IsPrinted (suc k) n out h =
    let one = IsPrinted-cons (48 + n % 10) out (omega arith) (omega arith) in
    elim (Bool-cases (ltb n 10)) [
      | inl t ↦ rw t one
      | inr f ↦ rw f (digits-IsPrinted k (n / 10) ((48 + n % 10) ∷ out) one)
    ]

pub print_byte-IsPrinted : (n : ℕ) → IsPrinted (print_byte n)
unfolding print_byte digits
print_byte-IsPrinted n =
    let one = IsPrinted-cons (48 + n % 10) [] (omega arith) (omega arith) in
    elim (Bool-cases (ltb n 10)) [
      | inl t ↦ rw t one
      | inr f ↦ rw f (digits-IsPrinted 2 (n / 10) ((48 + n % 10) ∷ []) one)
    ]

pub length-take-le : (k : ℕ) (s : List ℕ) → length (take k s) ≤ k
length-take-le zero s = omega arith
length-take-le (suc k) [] = omega arith
length-take-le (suc k) (c ∷ cs) = omega (arith, length-take-le k cs)

-- So does what is printed behind them, cut to the size of the buffer.
pub cut-IsPrinted :
    (s t : List ℕ) → IsPrinted s → IsPrinted (cut (s ++ t)) × (length (cut (s ++ t)) ≤ 1023)
cut-IsPrinted s t h =
    let e : s ++ t ≡ h.first ∷ (h.others ++ t) = ap (λ z. z ++ t) h.parts in
    (
      subst (λ z. IsPrinted (cut z)) (sym e) (IsPrinted-cons h.first _ h.digit.0 h.digit.1),
      length-take-le 1023 (s ++ t),
    )

-- Strings that are read or printed hold no NUL.
string_at-IsText : (m : Bytes) (a k : ℕ) (s : List ℕ) → string_at m a k ≡ some s → IsText s
unfolding string_at
string_at-IsText m a zero s e = cc
string_at-IsText m a (suc k) s e = elim (Option-cases (string_at m (a + 1) k)) [
  | inl n ↦ elim (Bool-cases (m a == 0)) [
    | inl z ↦ let same : [] ≡ s = ground (arith, e, n, z) in subst IsText same tt
    | inr z ↦ absurd (ground (arith, e, n, z))
  ]
  | inr (t, n) ↦ elim (Bool-cases (m a == 0)) [
    | inl z ↦ let same : [] ≡ s = ground (arith, e, n, z) in subst IsText same tt
    | inr z ↦
        let same : m a ∷ t ≡ s = ground (arith, e, n, z) in
        let some_char : 0 < m a = ground arith in
        subst IsText same (some_char, string_at-IsText m (a + 1) k t n)
  ]
]

append-IsText : (s t : List ℕ) → IsText s → IsText t → IsText (s ++ t)
append-IsText [] t h h' = h'
append-IsText (c ∷ cs) t (p, h) h' = (p, append-IsText cs t h h')

take-IsText : (k : ℕ) (s : List ℕ) → IsText s → IsText (take k s)
take-IsText zero s h = tt
take-IsText (suc k) [] h = tt
take-IsText (suc k) (c ∷ cs) (p, h) = (p, take-IsText k cs h)

digits-IsText : (k n : ℕ) (out : List ℕ) → IsText out → IsText (digits k n out)
unfolding digits
digits-IsText zero n out h = h
digits-IsText (suc k) n out h =
    let one : IsText ((48 + n % 10) ∷ out) = (omega arith, h) in
    elim (Bool-cases (ltb n 10)) [
      | inl t ↦ rw t one
      | inr f ↦ rw f (digits-IsText k (n / 10) ((48 + n % 10) ∷ out) one)
    ]

joined-IsText :
    (op : ℕ) (p b : Option (List ℕ)) (s : List ℕ)
    → ((t : List ℕ) → p ≡ some t → IsText t)
    → ((t : List ℕ) → b ≡ some t → IsText t)
    → joined op p b ≡ some s
    → IsText s
unfolding joined print_byte
joined-IsText op none b s hp hb e = cc
joined-IsText op (some p) none s hp hb e = cc
joined-IsText op (some p) (some b) s hp hb e =
    let same : cut (print_byte op ++ (b'|' ∷ p ++ (b'|' ∷ b))) ≡ s = cc in
    subst IsText same (
      take-IsText 1023 _ (
        append-IsText (print_byte op) _ (digits-IsText 3 op [] tt)
          (omega arith, append-IsText p _ (hp p refl) (omega arith, hb b refl))))

pub task_to_string-IsText : (m : Bytes) (s : List ℕ) → task_to_string m ≡ some s → IsText s
unfolding task_to_string
task_to_string-IsText m s e =
    joined-IsText (m opcode) (field m pipe_path) (field m box_name) s
      (string_at-IsText m pipe_path (task_size - pipe_path))
      (string_at-IsText m box_name (task_size - box_name)) e

-- An opcode and a text, printed and cut.
pub cut-IsText :
    (op : ℕ) (text : List ℕ) → IsText text → IsText (cut (print_byte op ++ (b'|' ∷ text)))
unfolding print_byte
cut-IsText op text h =
    take-IsText 1023 _ (append-IsText (print_byte op) _ (digits-IsText 3 op [] tt) (omega arith, h))
