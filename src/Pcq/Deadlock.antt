-- ===== src/Pcq/Deadlock.antt =====
-- A thread that waits for space in pcq_enqueue keeps the lock of the tail, which pcq_dequeue needs.
use so_server_and_pipes.Base.{ℕ, ◌^◌, ◌<◌, ◌≡◌, refl, ◌⊎◌, inr, true, List, arith}
use so_server_and_pipes.Pcq.{PcQueue, is_full}
use so_server_and_pipes.Pcq.Threads.{Pc, test_full, wait_space, System, Step, Reach, here, later}
use so_server_and_pipes.Pcq.Threads.{
  call_enqueue, take_size, take_tail, take_pusher, sleep_full, wake_full, pass_full, do_store,
  do_advance, give_pusher, give_tail, give_size, call_dequeue, enter_tail, sleep_empty, wake_empty,
  pass_empty, do_fetch, do_retire, leave,
}
use so_server_and_pipes.Base.{subst}
use so_server_and_pipes.Pcq.Fifo.{created, created-Inv}
use so_server_and_pipes.Pcq.Invariant.{LocalOk, Inv, Step-Inv}

-- Thread `i` is in the loop of pcq_enqueue.
abbrev pub IsWaiting : ℕ → Pc → Type 0
IsWaiting e p = (p ≡ test_full e) ⊎ (p ≡ wait_space e)

-- Thread `i` waits in pcq_enqueue for space in a queue that is full.
pub record IsStuck (i e : ℕ) (q : PcQueue) (inserted removed : List ℕ) (s : System) : Type 0 where
  pub waiting : IsWaiting e (s.pc i)
  pub full : is_full s.queue ≡ true
  pub same_queue : s.queue ≡ q
  pub same_inserted : s.inserted ≡ inserted
  pub same_removed : s.removed ≡ removed

Step-IsStuck :
    {s t : System} {i e : ℕ} {q : PcQueue} {ins rem : List ℕ}
    → Inv s
    → IsStuck i e q ins rem s
    → Step s t
    → IsStuck i e q ins rem t
Step-IsStuck inv stuck (call_enqueue j x at) = ground arith
Step-IsStuck inv stuck (take_size j x at f) = ground arith
Step-IsStuck inv stuck (take_tail j x at f) = ground arith
Step-IsStuck inv stuck (take_pusher j x at f) = ground arith
Step-IsStuck inv stuck (sleep_full j x at f) = ground arith
Step-IsStuck inv stuck (wake_full j x at f) = ground arith
Step-IsStuck inv stuck (pass_full j x at f) = ground arith
Step-IsStuck inv stuck (give_pusher j at) = ground arith
Step-IsStuck inv stuck (give_tail j at) = ground arith
Step-IsStuck inv stuck (give_size j at) = ground arith
Step-IsStuck inv stuck (call_dequeue j at) = ground arith
Step-IsStuck inv stuck (enter_tail j at f) = ground arith
Step-IsStuck inv stuck (sleep_empty j at f) = ground arith
Step-IsStuck inv stuck (wake_empty j at f) = ground arith
Step-IsStuck inv stuck (pass_empty j at f) = ground arith
Step-IsStuck inv stuck (do_fetch j at) = ground arith
Step-IsStuck inv stuck (leave j x at) = ground arith
Step-IsStuck {i} inv stuck (do_store j x at) = ground (arith, inv.owner i, inv.owner j)
Step-IsStuck {i} inv stuck (do_advance j x at) = ground (arith, inv.owner i, inv.owner j)
Step-IsStuck {i} inv stuck (do_retire j x at) = ground (arith, inv.owner i, inv.owner j)

Reach-IsStuck :
    {s t : System} {i e : ℕ} {q : PcQueue} {ins rem : List ℕ}
    → Inv s
    → IsStuck i e q ins rem s
    → Reach s t
    → Inv t × IsStuck i e q ins rem t
Reach-IsStuck inv stuck here = (inv, stuck)
Reach-IsStuck inv stuck (later r st) =
    let (inv', stuck') = Reach-IsStuck inv stuck r in
    (Step-Inv inv' st, Step-IsStuck inv' stuck' st)

-- Once a thread sleeps in pcq_enqueue for want of space, it never leaves the loop, and no element
-- leaves or enters the queue any more, whatever the other threads do: the queue stays full, since
-- the sleeping thread keeps the lock of the tail that pcq_dequeue needs.
pub sleeping_producer_blocks :
    (buffer : ℕ → ℕ) (capacity : ℕ) (q : PcQueue) {s t : System} (i e : ℕ)
    → 0 < capacity
    → capacity < 2 ^ 61
    → Reach (created buffer capacity q) s
    → s.pc i ≡ wait_space e
    → Reach s t
    → IsWaiting e (t.pc i)
      × (t.queue ≡ s.queue)
      × (t.removed ≡ s.removed)
      × (t.inserted ≡ s.inserted)
sleeping_producer_blocks buffer capacity q {s} i e some_slots small r asleep r' =
    let inv = created-Inv buffer capacity q some_slots small r in
    let stuck =
      (Reach-IsStuck inv
        (record {
          waiting = inr asleep;
          full = subst (LocalOk s.queue) asleep (inv.knows i);
          same_queue = refl;
          same_inserted = refl;
          same_removed = refl;
        })
        r').1 in
    (stuck.waiting, stuck.same_queue, stuck.same_removed, stuck.same_inserted)
