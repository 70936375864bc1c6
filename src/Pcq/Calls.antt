-- ===== src/Pcq/Calls.antt =====
-- One call of pcq_enqueue and of pcq_dequeue from its first lock to its return, when no other thread
-- holds a lock.
use so_server_and_pipes.Base.{
  subst, ℕ, ◌<◌, ◌≡◌, refl, sym, ap, ◌∙◌, false, none, [], ◌∷◌, ◌++◌, arith, ne→==, update_self,
}
use so_server_and_pipes.Pcq.{PcQueue, is_full, is_empty, store, advance, fetch, retire}
use so_server_and_pipes.Pcq.Ring.{
  advance-IsRing, IsRing, contents, store-contents, store-IsRing, advance-contents, retire-contents,
}
use so_server_and_pipes.Pcq.Threads.{
  System, Reach, here, later, idle, call_enqueue, take_size, take_tail, take_pusher, pass_full,
  do_store, do_advance, give_pusher, give_tail, give_size, call_dequeue, enter_tail, pass_empty,
  do_fetch, do_retire, leave,
}

-- Thread `i` is outside of every call, and all locks are free.
pub record IsQuiet (s : System) (i : ℕ) : Type 0 where
  pub outside : s.pc i ≡ idle
  pub size_free : s.size_lock ≡ none
  pub tail_free : s.tail_lock ≡ none
  pub pusher_free : s.pusher_lock ≡ none

-- The steps of pcq_enqueue, one after the other.
enqueue_run :
    {s : System} {i : ℕ} (e : ℕ)
    → IsQuiet s i
    → is_full s.queue ≡ false
    → (t : System) × Reach s t
      × IsQuiet t i
      × (t.queue ≡ advance (store s.queue e))
      × (t.inserted ≡ s.inserted ++ e ∷ [])
      × (t.removed ≡ s.removed)
enqueue_run {i} e quiet space = (
  _,
  later
      (later
        (later
          (later
            (later
              (later
                (later
                  (later
                    (later (later here (call_enqueue i e quiet.outside))
                      (take_size i e (ground arith) quiet.size_free))
                    (take_tail i e (ground arith) quiet.tail_free))
                  (take_pusher i e (ground arith) quiet.pusher_free))
                (pass_full i e (ground arith) space))
              (do_store i e (ground arith)))
            (do_advance i e (ground arith)))
          (give_pusher i (ground arith)))
        (give_tail i (ground arith)))
      (give_size i (ground arith)),
  record { outside = ground arith; size_free = refl; tail_free = refl; pusher_free = refl },
  refl,
  refl,
  refl,
)

-- The steps of pcq_dequeue.
dequeue_run :
    {s : System} {i : ℕ}
    → IsQuiet s i
    → is_empty s.queue ≡ false
    → (t : System) × Reach s t
      × IsQuiet t i
      × (t.queue ≡ retire s.queue)
      × (t.inserted ≡ s.inserted)
      × (t.removed ≡ s.removed ++ fetch s.queue ∷ [])
dequeue_run {s} {i} quiet some_elem = (
  _,
  later
      (later
        (later
          (later
            (later (later here (call_dequeue i quiet.outside))
              (enter_tail i (ground arith) quiet.tail_free))
            (pass_empty i (ground arith) some_elem))
          (do_fetch i (ground arith)))
        (do_retire i (fetch s.queue) (ground arith)))
      (leave i (fetch s.queue) (ground arith)),
  record {
    outside = ground arith;
    size_free = quiet.size_free;
    tail_free = refl;
    pusher_free = quiet.pusher_free;
  },
  refl,
  refl,
  refl,
)

-- What the two writes of pcq_enqueue add to the queue.
enqueued-contents :
    (q : PcQueue) (e : ℕ)
    → IsRing q
    → q.pcq_current_size < q.pcq_capacity
    → contents (advance (store q e)) ≡ contents q ++ e ∷ []
unfolding store
enqueued-contents q e ring space =
    advance-contents (store-IsRing ring e) space
    ∙ ap (λ c. c ++ (store q e).pcq_buffer q.pcq_tail ∷ []) (store-contents ring e space)
    ∙ ap (λ x. contents q ++ x ∷ []) (update_self q.pcq_buffer q.pcq_tail e)

enqueued-size :
    (q : PcQueue) (e : ℕ)
    → IsRing q
    → q.pcq_current_size < q.pcq_capacity
    → 0 < (advance (store q e)).pcq_current_size
unfolding advance store
enqueued-size q e ring space = omega (arith, ring.small)

-- A thread that finds all locks free and the queue not full can run pcq_enqueue to its return: the
-- element is the last in the queue then, and the locks are free. A thread that then finds the queue
-- so can run pcq_dequeue to its return, which takes out the first element of the queue.
pub calls_complete :
    {s : System} (i e : ℕ)
    → IsQuiet s i
    → IsRing s.queue
    → is_full s.queue ≡ false
    → (t : System) × (u : System) × (x : ℕ) × Reach s t
      × IsQuiet t i
      × (contents t.queue ≡ contents s.queue ++ e ∷ [])
      × Reach t u
      × IsQuiet u i
      × (u.removed ≡ s.removed ++ x ∷ [])
      × (contents t.queue ≡ x ∷ contents u.queue)
unfolding store
calls_complete {s} i e quiet ring space =
    let has_space : s.queue.pcq_current_size < s.queue.pcq_capacity = ground arith in
    let (t, to_t, quiet_t, queue_t, ins, rem) = enqueue_run e quiet space in
    let ring_t = subst IsRing (sym queue_t) (advance-IsRing (store-IsRing ring e) has_space) in
    let some_elem : 0 < t.queue.pcq_current_size =
      subst (λ q. 0 < q.pcq_current_size) (sym queue_t) (enqueued-size s.queue e ring has_space) in
    let (u, to_u, quiet_u, queue_u, ins', rem') =
      dequeue_run quiet_t (ne→== _ 0 (λ z. omega arith)) in
    (
      t,
      u,
      fetch t.queue,
      to_t,
      quiet_t,
      ap contents queue_t ∙ enqueued-contents s.queue e ring has_space,
      to_u,
      quiet_u,
      rem' ∙ ap (λ r. r ++ fetch t.queue ∷ []) rem,
      retire-contents ring_t some_elem ∙ ap (λ q. fetch t.queue ∷ contents q) (sym queue_u),
    )
