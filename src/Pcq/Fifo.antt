-- ===== src/Pcq/Fifo.antt =====
-- What the threads see of the queue: first in, first out, and one at a time in its slots.
use so_server_and_pipes.Base.{ℕ, ◌^◌, ◌≤◌, ◌<◌, ◌≡◌, refl, true, some, ◌++◌, arith, length}
use so_server_and_pipes.Pcq.{PcQueue, pcq_create}
use so_server_and_pipes.Pcq.Ring.{contents, pcq_create-IsRing, length-contents}
use so_server_and_pipes.Pcq.Threads.{System, Reach, initial}
use so_server_and_pipes.Pcq.Invariant.{Inv, Reach-Inv, holds_tail}

-- The state in which `pcq_create` leaves the queue, with no call begun.
abbrev pub created : (ℕ → ℕ) → ℕ → PcQueue → System
created buffer capacity q = initial (pcq_create (some buffer) capacity q).1

module _ (buffer : ℕ → ℕ) (capacity : ℕ) (q : PcQueue) {s : System} (some_slots : 0 < capacity)
    (small : capacity < 2 ^ 61) (r : Reach (created buffer capacity q) s) where
  pub created-Inv : Inv s
  unfolding pcq_create
  created-Inv = Reach-Inv (pcq_create-IsRing buffer capacity q some_slots small) refl r

  -- However the calls of pcq_enqueue and pcq_dequeue interleave, the elements leave the queue in the
  -- order in which they entered, none twice and none lost: those that entered are those that left,
  -- followed by those in the queue, which are at most as many as it has slots.
  pub elements_in_order :
      (s.inserted ≡ s.removed ++ contents s.queue)
      × (length (contents s.queue) ≤ s.queue.pcq_capacity)
  elements_in_order =
      (created-Inv.kept, omega (arith, length-contents s.queue, created-Inv.ring.size_in))

  -- Two threads never stand behind the lock of the tail together, in pcq_enqueue from that lock to
  -- its unlock and in pcq_dequeue likewise, where all accesses to the buffer, the head, the tail and
  -- the size are made.
  pub mutual_exclusion : (i j : ℕ) → holds_tail (s.pc i) ≡ true → holds_tail (s.pc j) ≡ true → i ≡ j
  mutual_exclusion i j hi hj =
      let a = created-Inv.owner i hi in let b = created-Inv.owner j hj in cc
