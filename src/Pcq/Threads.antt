-- ===== src/Pcq/Threads.antt =====
-- Any number of threads that call pcq_enqueue and pcq_dequeue on one queue, in any interleaving.
use so_server_and_pipes.Base.{ℕ, ◌≡◌, true, false, Option, none, some, List, [], ◌∷◌, ◌++◌, update}
use so_server_and_pipes.Pcq.{PcQueue, is_full, is_empty, store, advance, fetch, retire}

-- Where a thread stands.
pub data Pc : Type 0 where
  idle : Pc
  -- `pcq_enqueue(elem)`: before the locks of the size, of the tail and of the pushers' condition.
  lock_size : (elem : ℕ) → Pc
  lock_tail : (elem : ℕ) → Pc
  lock_pusher : (elem : ℕ) → Pc
  -- At the test of the loop, and in pthread_cond_wait.
  test_full : (elem : ℕ) → Pc
  wait_space : (elem : ℕ) → Pc
  -- Behind the loop, behind the write to the buffer, and before the three unlocks.
  storing : (elem : ℕ) → Pc
  advancing : (elem : ℕ) → Pc
  unlock_pusher : Pc
  unlock_tail : Pc
  unlock_size : Pc
  -- `pcq_dequeue()`: before the lock of the tail, at the test, and in pthread_cond_wait.
  enter : Pc
  test_empty : Pc
  wait_element : Pc
  -- Behind the loop, behind the read from the buffer, and before the unlock.
  fetching : Pc
  retiring : (result : ℕ) → Pc
  leaving : (result : ℕ) → Pc

-- The queue, its three locks with the thread that holds each, and the threads. `inserted` and
-- `removed` record the elements in the order in which they entered and left the queue.
pub record System : Type 0 where
  pub queue : PcQueue
  pub size_lock : Option ℕ
  pub tail_lock : Option ℕ
  pub pusher_lock : Option ℕ
  pub pc : ℕ → Pc
  pub inserted : List ℕ
  pub removed : List ℕ

-- Thread `i` goes on to `p`.
abbrev pub goto : System → ℕ → Pc → System
goto s i p = record s { pc = update s.pc i p }

-- One step of thread `i`. A wait on a condition variable gives up the lock that is named with it,
-- and may end at any time, as POSIX allows, so that a signal needs no record.
pub data Step (s : System) : System → Type 0 where
  call_enqueue : (i e : ℕ) → s.pc i ≡ idle → Step s (goto s i (lock_size e))
  take_size :
      (i e : ℕ)
      → s.pc i ≡ lock_size e
      → s.size_lock ≡ none
      → Step s (record (goto s i (lock_tail e)) { size_lock = some i })
  take_tail :
      (i e : ℕ)
      → s.pc i ≡ lock_tail e
      → s.tail_lock ≡ none
      → Step s (record (goto s i (lock_pusher e)) { tail_lock = some i })
  take_pusher :
      (i e : ℕ)
      → s.pc i ≡ lock_pusher e
      → s.pusher_lock ≡ none
      → Step s (record (goto s i (test_full e)) { pusher_lock = some i })
  sleep_full :
      (i e : ℕ)
      → s.pc i ≡ test_full e
      → is_full s.queue ≡ true
      → Step s (record (goto s i (wait_space e)) { pusher_lock = none })
  wake_full :
      (i e : ℕ)
      → s.pc i ≡ wait_space e
      → s.pusher_lock ≡ none
      → Step s (record (goto s i (test_full e)) { pusher_lock = some i })
  pass_full :
      (i e : ℕ) → s.pc i ≡ test_full e → is_full s.queue ≡ false → Step s (goto s i (storing e))
  do_store :
      (i e : ℕ)
      → s.pc i ≡ storing e
      → Step s (record (goto s i (advancing e)) { queue = store s.queue e })
  do_advance :
      (i e : ℕ)
      → s.pc i ≡ advancing e
      → Step s (record (goto s i unlock_pusher) {
        queue = advance s.queue;
        inserted = s.inserted ++ e ∷ [];
      })
  give_pusher :
      (i : ℕ)
      → s.pc i ≡ unlock_pusher
      → Step s (record (goto s i unlock_tail) { pusher_lock = none })
  give_tail :
      (i : ℕ) → s.pc i ≡ unlock_tail → Step s (record (goto s i unlock_size) { tail_lock = none })
  give_size : (i : ℕ) → s.pc i ≡ unlock_size → Step s (record (goto s i idle) { size_lock = none })
  call_dequeue : (i : ℕ) → s.pc i ≡ idle → Step s (goto s i enter)
  enter_tail :
      (i : ℕ)
      → s.pc i ≡ enter
      → s.tail_lock ≡ none
      → Step s (record (goto s i test_empty) { tail_lock = some i })
  sleep_empty :
      (i : ℕ)
      → s.pc i ≡ test_empty
      → is_empty s.queue ≡ true
      → Step s (record (goto s i wait_element) { tail_lock = none })
  wake_empty :
      (i : ℕ)
      → s.pc i ≡ wait_element
      → s.tail_lock ≡ none
      → Step s (record (goto s i test_empty) { tail_lock = some i })
  pass_empty : (i : ℕ) → s.pc i ≡ test_empty → is_empty s.queue ≡ false → Step s (goto s i fetching)
  do_fetch : (i : ℕ) → s.pc i ≡ fetching → Step s (goto s i (retiring (fetch s.queue)))
  do_retire :
      (i x : ℕ)
      → s.pc i ≡ retiring x
      → Step s
          (record (goto s i (leaving x)) { queue = retire s.queue; removed = s.removed ++ x ∷ [] })
  leave : (i x : ℕ) → s.pc i ≡ leaving x → Step s (record (goto s i idle) { tail_lock = none })

-- The states that are reached from `s`.
pub data Reach (s : System) : System → Type 0 where
  here : Reach s s
  later : {t u : System} → Reach s t → Step t u → Reach s u

-- A new queue, and every thread outside of it.
abbrev pub initial : PcQueue → System
initial q = record {
  queue = q;
  size_lock = none;
  tail_lock = none;
  pusher_lock = none;
  pc = λ _. idle;
  inserted = [];
  removed = [];
}
