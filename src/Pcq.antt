-- ===== src/Pcq.antt =====
-- producer-consumer/producer-consumer.c: the bounded queue, a ring of `pcq_capacity` slots. Elements
-- are only passed on, so an element, a pointer in the code, is any number.
pub mod Ring
pub mod Threads
mod Tests
pub mod Invariant
pub mod Fifo
pub mod Deadlock
pub mod Calls
use so_server_and_pipes.Base.{
  sub_size, add_size, ℕ, zero, suc, ◌+◌, ◌-◌, ◌*◌, ◌/◌, ◌%◌, ◌^◌, ◌≤◌, ◌<◌, ◌≡◌, refl, sym, ap, ◌∙◌,
  ◌≢◌, ◌⊎◌, inl, inr, Bool, true, false, not, ◌&&◌, ◌||◌, Option, none, some, List, [], ◌∷◌, ◌++◌,
  arith, ltb, leb, ◌==◌, if◌then◌else◌, length, get_or, take, replicate, update, ℤ, pos, negsuc,
  minus_one, is_minus_one, int_of_size, ssize_of_size, find_below, find_from, Finds, IsFirst,
  find_below-Finds, find_from-Finds, find_from-first, find_from-none, Bool-cases, Option-cases,
  tests, ==→eq, ==→ne, eq→==, ne→==, ltb→lt, ltb→le, lt→ltb, le→ltb, length-append,
  length-replicate, length-take, take-length, get_or-append_left, get_or-append_right,
  get_or-replicate, IsInt, signed32, unsigned32, signed32-unsigned32, int_of_size-pos,
  ssize_of_size-pos, update_self, update-ne, min,
}

-- `pc_queue_t` without its locks and condition variables.
pub record PcQueue : Type 0 where
  pub pcq_buffer : ℕ → ℕ
  pub pcq_capacity : ℕ
  pub pcq_current_size : ℕ
  pub pcq_head : ℕ
  pub pcq_tail : ℕ

-- `pcq_create`, given what malloc returns: NULL, or memory with any contents.
unfoldable pub pcq_create : Option (ℕ → ℕ) → ℕ → PcQueue → ℤ × PcQueue
pcq_create none capacity queue = (minus_one, queue)
pcq_create (some buffer) capacity queue = (
  pos 0,
  record {
    pcq_buffer = buffer;
    pcq_capacity = capacity;
    pcq_current_size = 0;
    pcq_head = 0;
    pcq_tail = 0;
  },
)

-- The first result that is not 0 of the seven calls in `pcq_destroy`.
unfoldable pub first_error : List ℤ → Option ℤ
first_error [] = none
first_error (pos zero ∷ rs) = first_error rs
first_error (pos (suc n) ∷ rs) = some (pos (suc n))
first_error (negsuc n ∷ rs) = some (negsuc n)

-- `pcq_destroy`, given what the calls of pthread_mutex_destroy and pthread_cond_destroy return.
unfoldable pub pcq_destroy : List ℤ → PcQueue → ℤ × PcQueue
unfolding first_error
pcq_destroy results queue = elim (first_error results) [
  | some r ↦ (r, queue)
  | none ↦
      (pos 0, record queue { pcq_capacity = 0; pcq_current_size = 0; pcq_head = 0; pcq_tail = 0 })
]

-- The test of the loop in `pcq_enqueue`, and of the loop in `pcq_dequeue`.
abbrev pub is_full : PcQueue → Bool
is_full queue = leb queue.pcq_capacity queue.pcq_current_size

abbrev pub is_empty : PcQueue → Bool
is_empty queue = queue.pcq_current_size == 0

-- `pcq_enqueue` behind its loop: the write to the buffer, and the updates of tail and size.
unfoldable pub store : PcQueue → ℕ → PcQueue
store queue elem = record queue { pcq_buffer = update queue.pcq_buffer queue.pcq_tail elem }

unfoldable pub advance : PcQueue → PcQueue
advance queue = record queue {
  pcq_tail = add_size queue.pcq_tail 1 % queue.pcq_capacity;
  pcq_current_size = add_size queue.pcq_current_size 1;
}

-- `pcq_dequeue` behind its loop: the read from the buffer, and the updates of head and size.
abbrev pub fetch : PcQueue → ℕ
fetch queue = queue.pcq_buffer queue.pcq_head

unfoldable pub retire : PcQueue → PcQueue
retire queue = record queue {
  pcq_head = add_size queue.pcq_head 1 % queue.pcq_capacity;
  pcq_current_size = sub_size queue.pcq_current_size 1;
}
