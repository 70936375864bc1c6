-- ===== src/Fs/View/Overwrite.antt =====
-- A write to memory, seen as a change of a list of bytes.
use so_server_and_pipes.Base.{
  ℕ, zero, suc, ◌+◌, ◌-◌, ◌≤◌, ◌≡◌, refl, sym, ap, ◌∙◌, inl, inr, List, [], ◌∷◌, ◌++◌, arith,
  length, take, min,
}
use so_server_and_pipes.Fs.Memory.{Bytes, write_bytes, read_bytes}
use so_server_and_pipes.Fs.Memory.Frame.{write_bytes-Same, read_bytes-Same}
use so_server_and_pipes.Fs.Memory.RoundTrip.{read_bytes-write_bytes}
use so_server_and_pipes.Fs.Ops.Append.{read_bytes-plus}
use so_server_and_pipes.Fs.Ops.Write.{grown}
use so_server_and_pipes.Fs.View.{drop, overwrite}

pub take-read_bytes : (m : Bytes) (a k n : ℕ) → k ≤ n → take k (read_bytes m a n) ≡ read_bytes m a k
take-read_bytes m a zero n le = refl
take-read_bytes m a (suc k) zero le = absurd (omega arith)
take-read_bytes m a (suc k) (suc n) le =
    ap (◌∷◌ (m a)) (take-read_bytes m (a + 1) k n (omega arith))

pub drop-read_bytes :
    (m : Bytes) (a k n : ℕ) → drop k (read_bytes m a n) ≡ read_bytes m (a + k) (n - k)
drop-read_bytes m a zero n =
    let here : a ≡ a + 0 = omega arith in
    let all : n ≡ n - 0 = omega arith in
    ap (λ x. read_bytes m x n) here ∙ ap (read_bytes m (a + 0)) all
drop-read_bytes m a (suc k) zero =
    let none_left : 0 - suc k ≡ 0 = omega arith in sym (ap (read_bytes m (a + suc k)) none_left)
drop-read_bytes m a (suc k) (suc n) =
    let at : a + 1 + k ≡ a + suc k = omega arith in
    let left : n - k ≡ suc n - suc k = omega arith in
    drop-read_bytes m (a + 1) k n
    ∙ ap (λ x. read_bytes m x (n - k)) at
    ∙ ap (read_bytes m (a + suc k)) left

grown_split :
    (size off len : ℕ) → off ≤ size → grown size (off + len) ≡ off + (len + (size - (off + len)))
grown_split size off len le = ground arith

-- Bytes are written into a range that holds `size` bytes, from an offset within them on.
pub read_bytes-overwrite :
    (m : Bytes) (a size off : ℕ) (bytes : List ℕ)
    → off ≤ size
    → read_bytes (write_bytes m (a + off) bytes) a (grown size (off + length bytes))
      ≡ overwrite (read_bytes m a size) off bytes
read_bytes-overwrite m a size off bytes le =
    let m' = write_bytes m (a + off) bytes in
    let rest = size - (off + length bytes) in
    ap (read_bytes m' a) (grown_split size off (length bytes) le)
    ∙ read_bytes-plus m' off (length bytes + rest) a
    ∙ ap (λ (l : List ℕ). l ++ read_bytes m' (a + off) (length bytes + rest))
        (read_bytes-Same m' m off a (write_bytes-Same m (a + off) bytes a off (inl (omega arith)))
          ∙ sym (take-read_bytes m a off size le))
    ∙ ap (λ (l : List ℕ). take off (read_bytes m a size) ++ l)
        (read_bytes-plus m' (length bytes) rest (a + off)
          ∙ ap (λ (l : List ℕ). l ++ read_bytes m' (a + off + length bytes) rest)
              (read_bytes-write_bytes m (a + off) bytes)
          ∙ ap (λ (l : List ℕ). bytes ++ l)
              (read_bytes-Same m' m rest _
                  (write_bytes-Same m (a + off) bytes _ rest (inr (omega arith)))
                ∙ ap (λ (x : ℕ). read_bytes m x rest) (omega arith)
                ∙ sym (drop-read_bytes m a (off + length bytes) size)))

pub take-drop : (k : ℕ) (xs : List ℕ) → take k xs ++ drop k xs ≡ xs
take-drop zero xs = refl
take-drop (suc k) [] = refl
take-drop (suc k) (x ∷ xs) = ap (◌∷◌ x) (take-drop k xs)

pub overwrite-nothing : (old : List ℕ) (off : ℕ) → overwrite old off [] ≡ old
overwrite-nothing old off =
    let here : off + 0 ≡ off = omega arith in
    ap (λ (k : ℕ). take off old ++ drop k old) here ∙ take-drop off old

pub take-read_bytes-min :
    (m : Bytes) (a k n : ℕ) → take k (read_bytes m a n) ≡ read_bytes m a (min k n)
take-read_bytes-min m a zero n =
    let nothing : min 0 n ≡ 0 = omega arith in sym (ap (read_bytes m a) nothing)
take-read_bytes-min m a (suc k) zero =
    let nothing : min (suc k) 0 ≡ 0 = omega arith in sym (ap (read_bytes m a) nothing)
take-read_bytes-min m a (suc k) (suc n) =
    let one_more : min (suc k) (suc n) ≡ suc (min k n) = omega arith in
    ap (◌∷◌ (m a)) (take-read_bytes-min m (a + 1) k n) ∙ sym (ap (read_bytes m a) one_more)

pub length-read_bytes : (m : Bytes) (a n : ℕ) → length (read_bytes m a n) ≡ n
length-read_bytes m a zero = refl
length-read_bytes m a (suc n) = ap suc (length-read_bytes m (a + 1) n)
