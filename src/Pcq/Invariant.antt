-- ===== src/Pcq/Invariant.antt =====
-- The tail lock guards the ring: what holds of the queue and of the threads in every reachable state.
use so_server_and_pipes.Base.{
  ℕ, ◌<◌, ◌≡◌, refl, sym, ap, ◌∙◌, ◌≢◌, inl, inr, Bool, true, false, Option, none, some, List, [],
  ◌∷◌, ◌++◌, arith, update, Bool-cases, update_self, update-ne,
}
use native.Mathlib.Decide.{ℕ_discrete}
use so_server_and_pipes.Base.{subst}
use mathlib.Core.List.{append_assoc}
use so_server_and_pipes.Pcq.{PcQueue, is_full, store, advance, fetch, retire}
use so_server_and_pipes.Pcq.Ring.{
  IsRing, contents, store-contents, store-IsRing, advance-contents, advance-IsRing, retire-contents,
  retire-IsRing,
}
use so_server_and_pipes.Pcq.Threads.{
  Pc, idle, lock_size, lock_tail, lock_pusher, test_full, wait_space, storing, advancing,
  unlock_pusher, unlock_tail, unlock_size, enter, test_empty, wait_element, fetching, retiring,
  leaving, System, goto, Step, Reach, here, later, initial,
}
use so_server_and_pipes.Pcq.Threads.{
  call_enqueue, take_size, take_tail, take_pusher, sleep_full, wake_full, pass_full, do_store,
  do_advance, give_pusher, give_tail, give_size, call_dequeue, enter_tail, sleep_empty, wake_empty,
  pass_empty, do_fetch, do_retire, leave,
}

-- Where a thread holds the tail lock. A thread that waits for space holds it still: it waits with
-- the lock of the pushers' condition alone.
abbrev pub holds_tail : Pc → Bool
holds_tail idle = false
holds_tail (lock_size e) = false
holds_tail (lock_tail e) = false
holds_tail unlock_size = false
holds_tail enter = false
holds_tail wait_element = false
holds_tail _ = true

-- What a thread knows of the queue where it stands.
abbrev pub LocalOk : PcQueue → Pc → Type 0
LocalOk q (wait_space e) = is_full q ≡ true
LocalOk q (storing e) = q.pcq_current_size < q.pcq_capacity
LocalOk q (advancing e) = (q.pcq_current_size < q.pcq_capacity) × (q.pcq_buffer q.pcq_tail ≡ e)
LocalOk q fetching = 0 < q.pcq_current_size
LocalOk q (retiring x) = (0 < q.pcq_current_size) × (fetch q ≡ x)
LocalOk q _ = Unit

pub record Inv (s : System) : Type 0 where
  pub ring : IsRing s.queue
  pub owner : (i : ℕ) → holds_tail (s.pc i) ≡ true → s.tail_lock ≡ some i
  pub knows : (i : ℕ) → LocalOk s.queue (s.pc i)
  pub kept : s.inserted ≡ s.removed ++ contents s.queue

LocalOk-outside : (q : PcQueue) (p : Pc) → holds_tail p ≡ false → LocalOk q p
LocalOk-outside q idle h = tt
LocalOk-outside q p h = ground arith

-- What holds of thread `i` at `p`, and of the others where they stand, holds of all after the move.
at_update :
    (P : ℕ → Pc → Type 0) (pc : ℕ → Pc) (i : ℕ) (p : Pc)
    → P i p
    → ((j : ℕ) → i ≢ j → P j (pc j))
    → (j : ℕ) → P j (update pc i p j)
at_update P pc i p mine others j = elim (ℕ_discrete i j) [
  | yes e ↦ subst (λ k. P k (update pc i p k)) e (subst (P i) (sym (update_self pc i p)) mine)
  | no ne ↦ subst (P j) (sym (update-ne pc i p j ne)) (others j ne)
]

module _ {s : System} (inv : Inv s) (i : ℕ) (p : Pc) (sl pl : Option ℕ) where
  -- Thread `i` moves to `p`, and the tail lock becomes `l`; the queue stays.
  move-Inv :
      (l : Option ℕ)
      → (holds_tail p ≡ true → l ≡ some i)
      → ((j : ℕ) → i ≢ j → holds_tail (s.pc j) ≡ true → l ≡ some j)
      → LocalOk s.queue p
      → Inv (record (goto s i p) { tail_lock = l; size_lock = sl; pusher_lock = pl })
  move-Inv l mine others known = record {
    ring = inv.ring;
    owner = at_update (λ j p. holds_tail p ≡ true → l ≡ some j) s.pc i p mine others;
    knows = at_update (λ j p. LocalOk s.queue p) s.pc i p known (λ j ne. inv.knows j);
    kept = inv.kept;
  }

  -- The lock stays as it is, and `p` holds it just if thread `i` holds it already.
  stay-Inv :
      (holds_tail p ≡ true → holds_tail (s.pc i) ≡ true)
      → LocalOk s.queue p
      → Inv (record (goto s i p) { size_lock = sl; pusher_lock = pl })
  stay-Inv already known =
      move-Inv s.tail_lock (λ h. inv.owner i (already h)) (λ j ne h. inv.owner j h) known

  -- The lock is taken: nobody held it.
  take-Inv :
      s.tail_lock ≡ none
      → LocalOk s.queue p
      → Inv (record (goto s i p) { tail_lock = some i; size_lock = sl; pusher_lock = pl })
  take-Inv free known =
      move-Inv (some i) (λ h. refl) (λ j ne h. let held = inv.owner j h in cc) known

  -- Nobody but the owner holds the lock.
  others_out : holds_tail (s.pc i) ≡ true → (j : ℕ) → i ≢ j → holds_tail (s.pc j) ≡ false
  others_out mine j ne = elim (Bool-cases (holds_tail (s.pc j))) [
    | inl h ↦
        let a = inv.owner i mine in
        let b = inv.owner j h in let same : i ≡ j = cc in absurd (ne same)
    | inr h ↦ h
  ]

  -- The lock is given back by its owner.
  give-Inv :
      holds_tail (s.pc i) ≡ true
      → holds_tail p ≡ false
      → LocalOk s.queue p
      → Inv (record (goto s i p) { tail_lock = none; size_lock = sl; pusher_lock = pl })
  give-Inv mine out known =
      move-Inv none (λ h. cc) (λ j ne h. let o = others_out mine j ne in cc) known

  -- The owner changes the queue to `q`, and keeps the lock.
  change-Inv :
      (q : PcQueue) (ins rem : List ℕ)
      → holds_tail (s.pc i) ≡ true
      → IsRing q
      → LocalOk q p
      → ins ≡ rem ++ contents q
      → Inv (record (goto s i p) {
        queue = q;
        size_lock = sl;
        pusher_lock = pl;
        inserted = ins;
        removed = rem;
      })
  change-Inv q ins rem mine ring known kept = record {
    ring = ring;
    owner =
        at_update (λ j p. holds_tail p ≡ true → s.tail_lock ≡ some j) s.pc i p
          (λ _. inv.owner i mine) (λ j ne h. inv.owner j h);
    knows =
        at_update (λ j p. LocalOk q p) s.pc i p known
          (λ j ne. LocalOk-outside q (s.pc j) (others_out mine j ne));
    kept = kept;
  }

store-LocalOk :
    (q : PcQueue) (e : ℕ) → q.pcq_current_size < q.pcq_capacity → LocalOk (store q e) (advancing e)
unfolding store
store-LocalOk q e has_space = (has_space, update_self q.pcq_buffer q.pcq_tail e)

-- The element that enters is the last of those that entered.
kept-advance :
    {q : PcQueue} {e : ℕ} (ins rem : List ℕ)
    → IsRing q
    → q.pcq_current_size < q.pcq_capacity
    → q.pcq_buffer q.pcq_tail ≡ e
    → ins ≡ rem ++ contents q
    → ins ++ e ∷ [] ≡ rem ++ contents (advance q)
kept-advance {q} {e} ins rem ring has_space slot kept =
    ap (λ xs. xs ++ e ∷ []) kept
    ∙ append_assoc rem (contents q) (e ∷ [])
    ∙ ap (λ x. rem ++ (contents q ++ x ∷ [])) (sym slot)
    ∙ ap (λ xs. rem ++ xs) (sym (advance-contents ring has_space))

-- The element that leaves is the first that had not left.
kept-retire :
    {q : PcQueue} {x : ℕ} (ins rem : List ℕ)
    → IsRing q
    → 0 < q.pcq_current_size
    → fetch q ≡ x
    → ins ≡ rem ++ contents q
    → ins ≡ (rem ++ x ∷ []) ++ contents (retire q)
kept-retire {q} {x} ins rem ring some_elem fetched kept =
    kept
    ∙ ap (λ xs. rem ++ xs) (retire-contents ring some_elem)
    ∙ ap (λ y. rem ++ (y ∷ contents (retire q))) fetched
    ∙ sym (append_assoc rem (x ∷ []) (contents (retire q)))

-- Every step of every thread keeps the invariant.
pub Step-Inv : {s t : System} → Inv s → Step s t → Inv t
Step-Inv {s} inv (call_enqueue i e at) =
    stay-Inv inv i (lock_size e) s.size_lock s.pusher_lock (λ h. cc) tt
Step-Inv {s} inv (take_size i e at free) =
    stay-Inv inv i (lock_tail e) (some i) s.pusher_lock (λ h. cc) tt
Step-Inv {s} inv (take_tail i e at free) =
    take-Inv inv i (lock_pusher e) s.size_lock s.pusher_lock free tt
Step-Inv {s} inv (take_pusher i e at free) =
    stay-Inv inv i (test_full e) s.size_lock (some i) (λ h. ap holds_tail at) tt
Step-Inv {s} inv (sleep_full i e at full) =
    stay-Inv inv i (wait_space e) s.size_lock none (λ h. ap holds_tail at) full
Step-Inv {s} inv (wake_full i e at free) =
    stay-Inv inv i (test_full e) s.size_lock (some i) (λ h. ap holds_tail at) tt
Step-Inv {s} inv (pass_full i e at space) =
    stay-Inv inv i (storing e) s.size_lock s.pusher_lock (λ h. ap holds_tail at) (ground arith)
Step-Inv {s} inv (do_store i e at) =
    let known = subst (LocalOk s.queue) at (inv.knows i) in
    change-Inv inv i (advancing e) s.size_lock s.pusher_lock (store s.queue e) s.inserted s.removed
      (ap holds_tail at) (store-IsRing inv.ring e) (store-LocalOk s.queue e known)
      (inv.kept ∙ ap (◌++◌ s.removed) (sym (store-contents inv.ring e known)))
Step-Inv {s} inv (do_advance i e at) =
    let known = subst (LocalOk s.queue) at (inv.knows i) in
    change-Inv inv i unlock_pusher s.size_lock s.pusher_lock (advance s.queue)
      (s.inserted ++ e ∷ []) s.removed (ap holds_tail at) (advance-IsRing inv.ring known.0) tt
      (kept-advance s.inserted s.removed inv.ring known.0 known.1 inv.kept)
Step-Inv {s} inv (give_pusher i at) =
    stay-Inv inv i unlock_tail s.size_lock none (λ h. ap holds_tail at) tt
Step-Inv {s} inv (give_tail i at) =
    give-Inv inv i unlock_size s.size_lock s.pusher_lock (ap holds_tail at) refl tt
Step-Inv {s} inv (give_size i at) = stay-Inv inv i idle none s.pusher_lock (λ h. cc) tt
Step-Inv {s} inv (call_dequeue i at) = stay-Inv inv i enter s.size_lock s.pusher_lock (λ h. cc) tt
Step-Inv {s} inv (enter_tail i at free) =
    take-Inv inv i test_empty s.size_lock s.pusher_lock free tt
Step-Inv {s} inv (sleep_empty i at empty) =
    give-Inv inv i wait_element s.size_lock s.pusher_lock (ap holds_tail at) refl tt
Step-Inv {s} inv (wake_empty i at free) =
    take-Inv inv i test_empty s.size_lock s.pusher_lock free tt
Step-Inv {s} inv (pass_empty i at some_elem) =
    stay-Inv inv i fetching s.size_lock s.pusher_lock (λ h. ap holds_tail at) (ground arith)
Step-Inv {s} inv (do_fetch i at) =
    let known = subst (LocalOk s.queue) at (inv.knows i) in
    stay-Inv inv i (retiring (fetch s.queue)) s.size_lock s.pusher_lock (λ h. ap holds_tail at)
      (known, refl)
Step-Inv {s} inv (do_retire i x at) =
    let known = subst (LocalOk s.queue) at (inv.knows i) in
    change-Inv inv i (leaving x) s.size_lock s.pusher_lock (retire s.queue) s.inserted
      (s.removed ++ x ∷ []) (ap holds_tail at) (retire-IsRing inv.ring known.0) tt
      (kept-retire s.inserted s.removed inv.ring known.0 known.1 inv.kept)
Step-Inv {s} inv (leave i x at) =
    give-Inv inv i idle s.size_lock s.pusher_lock (ap holds_tail at) refl tt

-- The invariant holds from the creation of the queue on.
pub Reach-Inv :
    {q : PcQueue} {s : System} → IsRing q → contents q ≡ [] → Reach (initial q) s → Inv s
Reach-Inv ring empty here = record {
  ring = ring;
  owner = λ i h. cc;
  knows = λ i. tt;
  kept = sym empty;
}
Reach-Inv ring empty (later r st) = Step-Inv (Reach-Inv ring empty r) st
