-- ===== src/Pcq/Ring.antt =====
-- The ring as a queue: what its slots hold, and what each update does to them.
use so_server_and_pipes.Base.{
  length-append, length, sub_size, add_size, ℕ, zero, suc, ◌+◌, ◌-◌, ◌%◌, ◌^◌, ◌≤◌, ◌<◌, ◌≡◌, refl,
  sym, ap, ◌∙◌, ◌≢◌, some, List, [], ◌∷◌, ◌++◌, arith, update, update-ne,
}
use native.Mathlib.Nat.{mod-add-mod, mod-eq_of_lt}
use so_server_and_pipes.Pcq.{PcQueue, pcq_create, store, advance, fetch, retire}

-- The elements of `n` slots from index `h` on, going round at `cap`, the oldest first.
abbrev pub slots : (ℕ → ℕ) → ℕ → ℕ → ℕ → List ℕ
slots buffer cap h zero = []
slots buffer cap h (suc n) = slots buffer cap h n ++ buffer ((h + n) % cap) ∷ []

abbrev pub contents : PcQueue → List ℕ
contents q = slots q.pcq_buffer q.pcq_capacity q.pcq_head q.pcq_current_size

-- The representation of a queue of capacity `cap`. The buffer has eight bytes a slot, so the
-- capacity is below 2 ^ 61.
pub record IsRing (q : PcQueue) : Type 0 where
  pub small : q.pcq_capacity < 2 ^ 61
  pub head_in : q.pcq_head < q.pcq_capacity
  pub size_in : q.pcq_current_size ≤ q.pcq_capacity
  pub tail_at : q.pcq_tail ≡ (q.pcq_head + q.pcq_current_size) % q.pcq_capacity

-- Two steps of less than a whole round lead to different slots.
slot-ne : (cap h k n : ℕ) → h < cap → k < n → n < cap → (h + n) % cap ≢ (h + k) % cap
slot-ne cap h k n hh hk hn = grind arith

slots-update :
    (buffer : ℕ → ℕ) (cap h m e n : ℕ)
    → h < cap
    → m < cap
    → n ≤ m
    → slots (update buffer ((h + m) % cap) e) cap h n ≡ slots buffer cap h n
slots-update buffer cap h m e zero hh hm le = refl
slots-update buffer cap h m e (suc n) hh hm le = rw (
  slots-update buffer cap h m e n hh hm (omega arith),
  update-ne buffer ((h + m) % cap) e ((h + n) % cap) (slot-ne cap h n m hh (omega arith) hm),
)

-- The slots without the oldest start one further on.
slots-cons :
    (buffer : ℕ → ℕ) (cap h n : ℕ)
    → slots buffer cap h (suc n) ≡ buffer (h % cap) ∷ slots buffer cap ((h + 1) % cap) n
slots-cons buffer cap h zero = ap (λ k. buffer (k % cap) ∷ []) (omega arith)
slots-cons buffer cap h (suc n) =
    ap (λ xs. xs ++ buffer ((h + suc n) % cap) ∷ []) (slots-cons buffer cap h n)
    ∙ ap (λ k. buffer (h % cap) ∷ (slots buffer cap ((h + 1) % cap) n ++ buffer k ∷ [])) shift
  where
    shift : (h + suc n) % cap ≡ ((h + 1) % cap + n) % cap
    shift = rw mod-add-mod (ap (λ k. k % cap) (omega arith))

add_one : (a cap : ℕ) → a < cap → cap < 2 ^ 61 → add_size a 1 ≡ a + 1
add_one a cap h small = omega arith

tail_next :
    (h n cap : ℕ)
    → h < cap
    → n < cap
    → cap < 2 ^ 61
    → add_size ((h + n) % cap) 1 % cap ≡ (h + add_size n 1) % cap
tail_next h n cap hh hn small =
    rw
      (
        add_one ((h + n) % cap) cap (omega arith) small,
        add_one n cap hn small,
        mod-add-mod (h + n) cap 1,
      )
      (ap (λ k. k % cap) (omega arith))

head_next :
    (h n cap : ℕ)
    → h < cap
    → 0 < n
    → n ≤ cap
    → cap < 2 ^ 61
    → (h + n) % cap ≡ (add_size h 1 % cap + sub_size n 1) % cap
head_next h n cap hh some_elem hn small =
    let less : sub_size n 1 ≡ n - 1 = omega arith in
    rw (add_one h cap hh small, less, mod-add-mod) (ap (λ k. k % cap) (omega arith))

-- A new queue is empty.
pub pcq_create-IsRing :
    (buffer : ℕ → ℕ) (capacity : ℕ) (q : PcQueue)
    → 0 < capacity
    → capacity < 2 ^ 61
    → IsRing (pcq_create (some buffer) capacity q).1
unfolding pcq_create
pcq_create-IsRing buffer capacity q some_slots small = record {
  small = small;
  head_in = some_slots;
  size_in = omega arith;
  tail_at = omega arith;
}

module _ {q : PcQueue} (r : IsRing q) where
  abbrev tail_slot : ℕ
  tail_slot = (q.pcq_head + q.pcq_current_size) % q.pcq_capacity

  -- The write goes to a slot that holds no element of the queue.
  pub store-contents :
      (e : ℕ) → q.pcq_current_size < q.pcq_capacity → contents (store q e) ≡ contents q
  unfolding store
  store-contents e has_space =
      ap (λ k. slots (update q.pcq_buffer k e) q.pcq_capacity q.pcq_head q.pcq_current_size)
        r.tail_at
      ∙ slots-update q.pcq_buffer q.pcq_capacity q.pcq_head q.pcq_current_size e q.pcq_current_size
          r.head_in has_space (omega arith)

  pub store-IsRing : (e : ℕ) → IsRing (store q e)
  unfolding store
  store-IsRing e = record {
    small = r.small;
    head_in = r.head_in;
    size_in = r.size_in;
    tail_at = r.tail_at;
  }

  -- The element in the slot at the tail becomes the last of the queue.
  pub advance-contents :
      q.pcq_current_size < q.pcq_capacity
      → contents (advance q) ≡ contents q ++ q.pcq_buffer q.pcq_tail ∷ []
  unfolding advance
  advance-contents has_space =
      let next : add_size q.pcq_current_size 1 ≡ suc q.pcq_current_size = omega (arith, r.small) in
      rw (next, ← r.tail_at)

  pub advance-IsRing : q.pcq_current_size < q.pcq_capacity → IsRing (advance q)
  unfolding advance
  advance-IsRing has_space = record {
    small = r.small;
    head_in = r.head_in;
    size_in = omega (arith, r.small);
    tail_at =
        rw r.tail_at
          (tail_next q.pcq_head q.pcq_current_size q.pcq_capacity r.head_in has_space r.small);
  }

  -- The oldest element leaves the queue.
  pub retire-contents : 0 < q.pcq_current_size → contents q ≡ fetch q ∷ contents (retire q)
  unfolding retire
  retire-contents some_elem =
      let less : q.pcq_current_size ≡ suc (sub_size q.pcq_current_size 1) =
        omega (arith, r.size_in, r.small) in
      ap (slots q.pcq_buffer q.pcq_capacity q.pcq_head) less
      ∙ slots-cons q.pcq_buffer q.pcq_capacity q.pcq_head (sub_size q.pcq_current_size 1)
      ∙ ap (λ k. q.pcq_buffer k ∷ rest (q.pcq_head + 1)) (mod-eq_of_lt r.head_in)
      ∙ ap (λ k. fetch q ∷ rest k) (sym (add_one q.pcq_head q.pcq_capacity r.head_in r.small))
    where
      rest : ℕ → List ℕ
      rest k =
          slots q.pcq_buffer q.pcq_capacity (k % q.pcq_capacity) (sub_size q.pcq_current_size 1)

  pub retire-IsRing : 0 < q.pcq_current_size → IsRing (retire q)
  unfolding retire
  retire-IsRing some_elem = record {
    small = r.small;
    head_in = omega (arith, r.head_in);
    size_in = omega (arith, r.size_in, r.small);
    tail_at =
        r.tail_at
        ∙ head_next q.pcq_head q.pcq_current_size q.pcq_capacity r.head_in some_elem r.size_in
            r.small;
  }

length-slots : (buffer : ℕ → ℕ) (cap h n : ℕ) → length (slots buffer cap h n) ≡ n
length-slots buffer cap h zero = refl
length-slots buffer cap h (suc n) = omega (
  arith,
  length-append (slots buffer cap h n) (buffer ((h + n) % cap) ∷ []),
  length-slots buffer cap h n,
)

pub length-contents : (q : PcQueue) → length (contents q) ≡ q.pcq_current_size
length-contents q = length-slots q.pcq_buffer q.pcq_capacity q.pcq_head q.pcq_current_size
