-- ===== src/Pcq/Tests.antt =====
-- A queue of one slot on which one thread calls pcq_enqueue twice, and the theorems at its states.
use so_server_and_pipes.Base.{[], ◌∷◌, ℕ, ◌≤◌, ◌≡◌, refl, ◌++◌, arith, length}
use so_server_and_pipes.Pcq.{PcQueue, pcq_create, store, advance}
use so_server_and_pipes.Pcq.Ring.{pcq_create-IsRing, IsRing, contents}
use so_server_and_pipes.Pcq.Threads.{System, Step, Reach, here, later}
use so_server_and_pipes.Pcq.Threads.{
  call_enqueue, take_size, take_tail, take_pusher, sleep_full, pass_full, do_store, do_advance,
  give_pusher, give_tail, give_size,
}
use so_server_and_pipes.Pcq.Calls.{IsQuiet, calls_complete}
use so_server_and_pipes.Pcq.Fifo.{created, elements_in_order, mutual_exclusion}
use so_server_and_pipes.Pcq.Deadlock.{IsWaiting, sleeping_producer_blocks}

abbrev slot : ℕ → ℕ
slot _ = 0

abbrev no_queue : PcQueue
no_queue = record {
  pcq_buffer = slot;
  pcq_capacity = 0;
  pcq_current_size = 0;
  pcq_head = 0;
  pcq_tail = 0;
}

-- A state, and how it is reached.
record Reached : Type 0 where
  last : System
  reach : Reach (created slot 1 no_queue) last

step_on : {t : System} (r : Reached) → Step r.last t → Reached
step_on {t} r st = record { last = t; reach = later r.reach st }

begin : Reached
begin = record { last = created slot 1 no_queue; reach = here }

-- Thread 0 puts 5 into the only slot, and holds the lock of the tail still.
put_five : Reached
unfolding step_on begin pcq_create store advance
put_five =
    step_on
      (step_on
        (step_on
          (step_on
            (step_on (step_on (step_on begin (call_enqueue 0 5 refl)) (take_size 0 5 refl refl))
              (take_tail 0 5 refl refl))
            (take_pusher 0 5 refl refl))
          (pass_full 0 5 refl refl))
        (do_store 0 5 refl))
      (do_advance 0 5 refl)

-- It calls pcq_enqueue again, and sleeps.
asleep : Reached
unfolding put_five
asleep =
    step_on
      (step_on
        (step_on
          (step_on
            (step_on
              (step_on (step_on (step_on put_five (give_pusher 0 refl)) (give_tail 0 refl))
                (give_size 0 refl))
              (call_enqueue 0 6 refl))
            (take_size 0 6 refl refl))
          (take_tail 0 6 refl refl))
        (take_pusher 0 6 refl refl))
      (sleep_full 0 6 refl refl)

elements_in_order_example :
    (put_five.last.inserted ≡ put_five.last.removed ++ contents put_five.last.queue)
    × (length (contents put_five.last.queue) ≤ put_five.last.queue.pcq_capacity)
elements_in_order_example =
    elements_in_order slot 1 no_queue (omega arith) (omega arith) put_five.reach

mutual_exclusion_example : ◌≡◌ {A = ℕ} 0 0
unfolding put_five
mutual_exclusion_example =
    mutual_exclusion slot 1 no_queue (omega arith) (omega arith) put_five.reach 0 0 refl refl

sleeping_producer_blocks_example :
    IsWaiting 6 (asleep.last.pc 0)
    × (asleep.last.queue ≡ asleep.last.queue)
    × (asleep.last.removed ≡ asleep.last.removed)
    × (asleep.last.inserted ≡ asleep.last.inserted)
unfolding asleep
sleeping_producer_blocks_example =
    sleeping_producer_blocks slot 1 no_queue 0 6 (omega arith) (omega arith) asleep.reach refl here

begin-IsQuiet : IsQuiet begin.last 0
unfolding begin
begin-IsQuiet = record { outside = refl; size_free = refl; tail_free = refl; pusher_free = refl }

begin-IsRing : IsRing begin.last.queue
unfolding begin
begin-IsRing = pcq_create-IsRing slot 1 no_queue (omega arith) (omega arith)

calls_complete_example :
    (t : System) × (u : System) × (x : ℕ) × Reach begin.last t
    × IsQuiet t 0
    × (contents t.queue ≡ contents begin.last.queue ++ 5 ∷ [])
    × Reach t u
    × IsQuiet u 0
    × (u.removed ≡ begin.last.removed ++ x ∷ [])
    × (contents t.queue ≡ x ∷ contents u.queue)
unfolding begin pcq_create
calls_complete_example = calls_complete 0 5 begin-IsQuiet begin-IsRing refl
