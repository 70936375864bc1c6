-- ===== src/Broker/Remove.antt =====
-- What box_remove_request does to the table of boxes.
use so_server_and_pipes.Base.{
  ℕ, zero, suc, ◌+◌, ◌-◌, ◌≤◌, ◌<◌, ◌≡◌, refl, ap, ◌∙◌, inl, inr, Bool, true, false, some, List, [],
  ◌∷◌, ◌++◌, arith, ltb, if◌then◌else◌, update, ℤ, pos, minus_one, is_minus_one, find_below,
  Bool-cases, ne→==, ltb→lt, update_self, update-ne, codes,
}
use native.Mathlib.Decide.{ℕ_discrete}
use so_server_and_pipes.Base.{subst}
use so_server_and_pipes.Fs.Exec.{Fs, ok}
use so_server_and_pipes.Fs.Ops.{tfs_unlink}
use so_server_and_pipes.Fs.Setup.{is_zero}
use so_server_and_pipes.Os.{
  and_then, Answer, Call, done, answer_to, sys, call_open, call_write, exit_failure,
}
use so_server_and_pipes.Broker.{
  MailBox, Broker, io, on_os, name_of, is_box_of, rounds, refuse, task_error_box_to_str, exit_if,
}
use so_server_and_pipes.Broker.Boxes.{
  shift_boxes, removed_at, remove_box, decrement, drop_box, unlink_box, box_remove_request,
}

-- The loop moves the boxes of its range down, and leaves those before it.
pub shift_boxes-before :
    (k j : ℕ) (boxes : ℕ → MailBox) (x : ℕ) → x < j → shift_boxes k j boxes x ≡ boxes x
unfolding shift_boxes
shift_boxes-before zero j boxes x lt = refl
shift_boxes-before (suc k) j boxes x lt =
    shift_boxes-before k (j + 1) _ x (omega arith) ∙ update-ne boxes j _ x (λ e. omega (arith, e))

pub shift_boxes-moved :
    (k j : ℕ) (boxes : ℕ → MailBox) (x : ℕ)
    → j ≤ x
    → x < j + k
    → shift_boxes k j boxes x ≡ boxes (x + 1)
unfolding shift_boxes
shift_boxes-moved zero j boxes x lo hi = absurd (omega arith)
shift_boxes-moved (suc k) j boxes x lo hi = elim (ℕ_discrete j x) [
  | yes e ↦
      shift_boxes-before k (j + 1) _ x (omega (arith, e))
      ∙ subst (λ z. update boxes j (boxes (j + 1)) z ≡ boxes (z + 1)) e (update_self boxes j _)
  | no ne ↦
      shift_boxes-moved k (j + 1) _ x (omega (arith, ne)) (omega arith)
      ∙ update-ne boxes j _ (x + 1) (λ e. omega (arith, e))
]

shift_boxes-at :
    (n r : ℕ) (boxes : ℕ → MailBox) (x : ℕ)
    → x < n
    → shift_boxes (n - r) r boxes x ≡ (if ltb x r then boxes x else boxes (x + 1))
shift_boxes-at n r boxes x below = elim (Bool-cases (ltb x r)) [
  | inl t ↦ rw t (shift_boxes-before (n - r) r boxes x (ltb→lt x r t))
  | inr f ↦ rw f (shift_boxes-moved (n - r) r boxes x (ground arith) (ground arith))
]

-- The broker after the system call `c`, with the answers `rest` to come.
abbrev pub called : Broker → Call → List Answer → Broker
called b c rest = record b { os = record { answers = rest; calls = b.os.calls ++ c ∷ [] } }

pub sys-eq :
    (b : Broker) (c : Call) (a : Answer) (rest : List Answer)
    → b.os.answers ≡ a ∷ rest
    → io (sys c) b ≡ done a (called b c rest)
sys-eq b c a rest e = ap (λ l. on_os b (answer_to c l b.os.calls)) e

pub remove_box-eq :
    (b : Broker) (task n r : ℕ)
    → b.current_boxes ≡ pos (suc n)
    → find_below (is_box_of b task) (suc n) ≡ some r
    → remove_box b task ≡ shift_boxes (n - r) r b.boxes
unfolding remove_box removed_at
remove_box-eq b task n r count first =
    let rest : suc n - 1 - r ≡ n - r = omega arith in
    ap (λ c. removed_at b.boxes (rounds c) (find_below (is_box_of b task) (rounds c))) count
    ∙ ap (removed_at b.boxes (suc n)) first
    ∙ ap (λ k. shift_boxes k r b.boxes) rest

-- The end of the request, where tfs_unlink succeeds.
pub unlink_box-eq :
    (b : Broker) (task : ℕ) (count : ℤ) (fs : Fs)
    → b.current_boxes ≡ count
    → tfs_unlink (some (name_of b task)) b.fs ≡ ok (pos 0) fs
    → unlink_box task b ≡ done tt (record b { current_boxes = decrement count; fs = fs })
unfolding unlink_box
unlink_box-eq b task count fs e unlinked =
    rw unlinked (ap (λ c. done tt (record b { current_boxes = decrement c; fs = fs })) e)

-- The opening of the client's pipe, and then the branch by whether there are boxes.
abbrev pub opened : Broker → ℕ → List Answer → Broker
opened b task rest = called b (call_open (b.tasks task).pipe_path) rest

box_remove_request-opened :
    (task : ℕ) (b : Broker) (a : Answer) (rest : List Answer) (none_left : Bool)
    → b.os.answers ≡ a ∷ rest
    → is_zero b.current_boxes ≡ none_left
    → box_remove_request task b
      ≡ and_then (drop_box task a.result none_left (opened b task rest)) (λ _. unlink_box task)
unfolding box_remove_request
box_remove_request-opened task b a rest none_left e count =
    ap
      (λ r. and_then r (λ pipe b'.
        and_then (drop_box task pipe.result (is_zero b.current_boxes) b') (λ _. unlink_box task)))
      (sys-eq b (call_open (b.tasks task).pipe_path) a rest e)
    ∙ ap (λ z. and_then (drop_box task a.result z (opened b task rest)) (λ _. unlink_box task))
        count

-- The refusal, where its write succeeds.
pub refuse-eq :
    (b : Broker) (fd : ℤ) (text : List ℕ) (a : Answer) (rest : List Answer)
    → b.os.answers ≡ a ∷ rest
    → is_minus_one a.result ≡ false
    → refuse fd text b
      ≡ done tt (called b (call_write fd (task_error_box_to_str 4 minus_one text) 1031) rest)
unfolding refuse
refuse-eq b fd text a rest e written =
    let c = call_write fd (task_error_box_to_str 4 minus_one text) 1031 in
    ap (λ r. and_then r (λ a'. exit_if (is_minus_one a'.result) exit_failure)) (sys-eq b c a rest e)
    ∙ ap (λ z. exit_if z exit_failure (called b c rest)) written

-- The broker after a request that takes a box out.
abbrev pub removed : Broker → ℕ → List Answer → ℕ → Fs → Broker
removed b task rest n fs = record (opened b task rest) {
  boxes = remove_box (opened b task rest) task;
  current_boxes = pos n;
  fs = fs;
}

module _ (task : ℕ) (b : Broker) (a : Answer) (rest : List Answer) (n r : ℕ) (fs : Fs)
    (e : b.os.answers ≡ a ∷ rest) (count : b.current_boxes ≡ pos (suc n))
    (first : find_below (is_box_of b task) (suc n) ≡ some r)
    (unlinked : tfs_unlink (some (name_of b task)) b.fs ≡ ok (pos 0) fs) where
  pub box_remove_request-done : box_remove_request task b ≡ done tt (removed b task rest n fs)
  unfolding drop_box
  box_remove_request-done =
      let some_box : is_zero b.current_boxes ≡ false =
        ap is_zero count ∙ ne→== (suc n) 0 (λ z. omega (arith, z)) in
      let b₁ = record (opened b task rest) { boxes = remove_box (opened b task rest) task } in
      box_remove_request-opened task b a rest false e some_box
      ∙ unlink_box-eq b₁ task (pos (suc n)) fs count unlinked

  pub removed-boxes :
      (x : ℕ)
      → x < n
      → (removed b task rest n fs).boxes x ≡ (if ltb x r then b.boxes x else b.boxes (x + 1))
  removed-boxes x below =
      ap (λ t. t x) (remove_box-eq (opened b task rest) task n r count first)
      ∙ shift_boxes-at n r b.boxes x below

-- With a box of the task's name in the table, the first of them at index `r`, and its file unlinked,
-- the request takes box `r` out of the table: the boxes before it stay, those behind it move down by
-- one place, and there is one box less.
pub box_remove_request-eq :
    (task : ℕ) (b : Broker) (a : Answer) (rest : List Answer) (n r x : ℕ) (fs : Fs)
    → b.os.answers ≡ a ∷ rest
    → b.current_boxes ≡ pos (suc n)
    → find_below (is_box_of b task) (suc n) ≡ some r
    → tfs_unlink (some (name_of b task)) b.fs ≡ ok (pos 0) fs
    → x < n
    → (b' : Broker) × (box_remove_request task b ≡ done tt b')
      × (b'.current_boxes ≡ pos n)
      × (b'.fs ≡ fs)
      × (b'.boxes x ≡ (if ltb x r then b.boxes x else b.boxes (x + 1)))
box_remove_request-eq task b a rest n r x fs e count first unlinked below = (
  removed b task rest n fs,
  box_remove_request-done task b a rest n r fs e count first unlinked,
  refl,
  refl,
  removed-boxes task b a rest n r fs e count first unlinked x below,
)

-- With no box in the table the count goes to -1, if the answer is written to the client and a file of
-- the name exists.
pub box_remove_request-empty :
    (task : ℕ) (b : Broker) (a a' : Answer) (rest : List Answer) (fs : Fs)
    → b.os.answers ≡ a ∷ a' ∷ rest
    → b.current_boxes ≡ pos 0
    → is_minus_one a'.result ≡ false
    → tfs_unlink (some (name_of b task)) b.fs ≡ ok (pos 0) fs
    → (b' : Broker) × (box_remove_request task b ≡ done tt b')
      × (b'.current_boxes ≡ minus_one)
      × (b'.fs ≡ fs)
      × (b'.os.answers ≡ rest)
unfolding drop_box
box_remove_request-empty task b a a' rest fs e count written unlinked =
    let b₁ = opened b task (a' ∷ rest) in
    let text = codes "THERE AREN'T ANY BOXES" in
    let b₂ = called b₁ (call_write a.result (task_error_box_to_str 4 minus_one text) 1031) rest in
    (
      record b₂ { current_boxes = minus_one; fs = fs },
      box_remove_request-opened task b a (a' ∷ rest) true e (ap is_zero count)
          ∙ ap (λ r. and_then r (λ _. unlink_box task))
              (refuse-eq b₁ a.result text a' rest refl written)
          ∙ unlink_box-eq b₂ task (pos 0) fs count unlinked,
      refl,
      refl,
      refl,
    )
