-- ===== src/Broker/Serve/Create.antt =====
-- What a request to create a box does.
use so_server_and_pipes.Base.{
  ℕ, zero, suc, ◌+◌, ◌≤◌, ◌<◌, ◌≡◌, refl, ap, ◌∙◌, true, false, some, List, [], ◌∷◌, arith, ◌==◌,
  if◌then◌else◌, update, ℤ, pos, find_below, find_from-first, eq→==, lt→ltb, update_self, update-ne,
}
use native.Mathlib.Decide.{ℕ_discrete}
use so_server_and_pipes.Base.{subst}
use so_server_and_pipes.Fs.Memory.{Bytes}
use so_server_and_pipes.Fs.Exec.{Fs, ok}
use so_server_and_pipes.Fs.Ops.{tfs_open, tfs_unlink, tfs_o_creat}
use so_server_and_pipes.Os.{and_then, Answer, done, sys, call_open, call_close}
use so_server_and_pipes.Broker.{MailBox, Broker, io, name_of, is_box_of, rounds, max_boxes, str_eq}
use so_server_and_pipes.Broker.Boxes.{
  report_existing, new_box, store_box, make_box, box_create_request, box_remove_request,
}
use so_server_and_pipes.Broker.Remove.{called, sys-eq, opened, box_remove_request-eq}
use so_server_and_pipes.Broker.Serve.{serve, switch_to}

str_eq_self : (s : List ℕ) → str_eq s s ≡ true
str_eq_self [] = refl
str_eq_self (c ∷ cs) = let ih = str_eq_self cs in let e = eq→== c c refl in rw (e, ih)

-- Without a box of the name nothing is reported.
pub report_existing-none :
    (k i task : ℕ) (fd : ℤ) (b : Broker)
    → ((x : ℕ) → i ≤ x → x < i + k → is_box_of b task x ≡ false)
    → report_existing k i task fd b ≡ done tt b
unfolding report_existing
report_existing-none zero i task fd b other = refl
report_existing-none (suc k) i task fd b other =
    rw (other i (omega arith) (omega arith))
      (report_existing-none k (i + 1) task fd b (λ x lo hi. other x (omega arith) (omega arith)))

-- The table with the new box behind box `n`.
abbrev pub with_box : Broker → ℕ → ℕ → ℕ → MailBox
with_box b n task =
    update (update b.boxes n (record (b.boxes n) { last = 0 })) (suc n) (new_box task)

store_box-eq :
    (task n : ℕ) (b : Broker)
    → suc n < max_boxes
    → store_box task (pos (suc n)) b
      ≡ done tt (record b { boxes = with_box b n task; current_boxes = pos (suc n + 1) })
unfolding store_box
store_box-eq task n b room =
    rw (lt→ltb n max_boxes (omega (arith, room))) (rw (lt→ltb (suc n) max_boxes room))

module _ (task n k : ℕ) (fs : Fs) where
  -- The file is made and the box stored.
  make_box-eq :
      (b : Broker) (fd : ℤ) (a : Answer) (rest : List Answer)
      → b.os.answers ≡ a ∷ rest
      → suc n < max_boxes
      → tfs_open (some (name_of b task)) tfs_o_creat b.fs ≡ ok (pos k) fs
      → make_box task fd (pos (suc n)) b
        ≡ done tt (
            called
              (record b { boxes = with_box b n task; current_boxes = pos (suc n + 1); fs = fs })
              (call_close fd)
              rest)
  unfolding make_box
  make_box-eq b fd a rest e room made =
      let b₁ = record b { fs = fs } in
      let b₂ = record b₁ { boxes = with_box b n task; current_boxes = pos (suc n + 1) } in
      rw made (
        ap (λ r. and_then r (λ _ b'. and_then (io (sys (call_close fd)) b') (λ _. done tt)))
          (store_box-eq task n b₁ room)
        ∙ ap (λ r. and_then r (λ _. done tt)) (sys-eq b₂ (call_close fd) a rest e))

-- The broker after `box_create_request`.
abbrev pub created : Broker → ℕ → ℕ → ℤ → Fs → List Answer → Broker
created b task n fd fs rest =
    called
      (record (opened b task rest) {
        boxes = with_box b n task;
        current_boxes = pos (suc n + 1);
        fs = fs;
      })
      (call_close fd) rest

-- `box_create_request` of a name that no box has, where the file can be made and there is room behind
-- the last box: it opens the client's pipe, makes the file and a box, and closes the pipe.
pub box_create_request-eq :
    (task n k : ℕ) (b : Broker) (a a' : Answer) (rest : List Answer) (fs : Fs)
    → b.os.answers ≡ a ∷ a' ∷ rest
    → b.current_boxes ≡ pos (suc n)
    → suc n < max_boxes
    → ((x : ℕ) → x < suc n → is_box_of b task x ≡ false)
    → tfs_open (some (name_of b task)) tfs_o_creat b.fs ≡ ok (pos k) fs
    → box_create_request task b ≡ done tt (created b task n a.result fs rest)
unfolding box_create_request
box_create_request-eq task n k b a a' rest fs e count room other made =
    let path = (b.tasks task).pipe_path in
    let b₁ = opened b task (a' ∷ rest) in
    ap
      (λ r. and_then r (λ pipe b'.
        and_then (report_existing (rounds b.current_boxes) 0 task pipe.result b')
          (λ _. make_box task pipe.result b.current_boxes)))
      (sys-eq b (call_open path) a (a' ∷ rest) e)
    ∙ ap
        (λ c.
          and_then (report_existing (rounds c) 0 task a.result b₁) (λ _. make_box task a.result c))
        count
    ∙ ap (λ r. and_then r (λ _. make_box task a.result (pos (suc n))))
        (report_existing-none (suc n) 0 task a.result b₁ (λ x lo hi. other x (omega arith)))
    ∙ make_box-eq task n k fs b₁ a.result a' rest refl room made

-- The new box is the first of its name.
with_box-name :
    (b : Broker) (n task x : ℕ) → x < suc n → (with_box b n task x).box_name ≡ (b.boxes x).box_name
with_box-name b n task x below =
    let behind =
      update-ne (update b.boxes n (record (b.boxes n) { last = 0 })) (suc n) (new_box task) x
        (λ e. omega (arith, e)) in
    ap (λ m. m.box_name) behind ∙ elim (ℕ_discrete n x) [
      | yes e ↦
          subst
            (λ z.
              (update b.boxes n (record (b.boxes n) { last = 0 }) z).box_name
              ≡ (b.boxes z).box_name)
            e (ap (λ m. m.box_name) (update_self b.boxes n _))
      | no ne ↦ ap (λ m. m.box_name) (update-ne b.boxes n _ x ne)
    ]

created-first :
    (b : Broker) (task n : ℕ) (fd : ℤ) (fs : Fs) (rest : List Answer)
    → ((x : ℕ) → x < suc n → is_box_of b task x ≡ false)
    → find_below (is_box_of (created b task n fd fs rest) task) (suc (suc n)) ≡ some (suc n)
created-first b task n fd fs rest other =
    find_from-first (is_box_of (created b task n fd fs rest) task) (suc (suc n)) 0 (suc n)
      (omega arith) (omega arith)
      (ap (λ m. str_eq (name_of b m.box_name) (name_of b task))
          (update_self (update b.boxes n (record (b.boxes n) { last = 0 })) (suc n) (new_box task))
        ∙ str_eq_self (name_of b task))
      (λ x lo hi.
        ap (λ p. str_eq (name_of b p) (name_of b task)) (with_box-name b n task x hi) ∙ other x hi)

-- A request to create a box of a new name leaves as many boxes as there were: `task_handler` goes on
-- from the case that makes the box into the case that removes it, and unlinks the file that was made.
-- Of the boxes only the field `last` of the last one is changed.
pub serve-create :
    (fuel task n k x : ℕ) (junk : Bytes) (b : Broker) (a a' a'' : Answer) (rest : List Answer)
    (fs fs' : Fs)
    → (b.tasks task).opcode ≡ 3
    → b.os.answers ≡ a ∷ a' ∷ a'' ∷ rest
    → b.current_boxes ≡ pos (suc n)
    → suc n < max_boxes
    → ((y : ℕ) → y < suc n → is_box_of b task y ≡ false)
    → tfs_open (some (name_of b task)) tfs_o_creat b.fs ≡ ok (pos k) fs
    → tfs_unlink (some (name_of b task)) fs ≡ ok (pos 0) fs'
    → x < suc n
    → (b' : Broker) × (serve fuel junk task b ≡ done tt b')
      × (b'.current_boxes ≡ pos (suc n))
      × (b'.fs ≡ fs')
      × (b'.boxes x ≡ (if n == x then record (b.boxes n) { last = 0 } else b.boxes x))
unfolding serve switch_to
serve-create fuel task n k x junk b a a' a'' rest fs fs' op e count room other made unlinked below =
    let b₁ = created b task n a.result fs (a'' ∷ rest) in
    let more : b₁.current_boxes ≡ pos (suc (suc n)) = ap pos (omega arith) in
    let (b', removed, left, files, table) =
      box_remove_request-eq task b₁ a'' rest (suc n) (suc n) x fs' refl more
        (created-first b task n a.result fs (a'' ∷ rest) other) unlinked below in
    (
      b',
      ap (λ o. switch_to fuel junk task o b) op
          ∙ ap (λ r. and_then r (λ _. box_remove_request task))
              (box_create_request-eq task n k b a a' (a'' ∷ rest) fs e count room other made)
          ∙ removed,
      left,
      files,
      table
          ∙ ap (λ v. if v then b₁.boxes x else b₁.boxes (x + 1)) (lt→ltb x (suc n) below)
          ∙ update-ne (update b.boxes n (record (b.boxes n) { last = 0 })) (suc n) (new_box task) x
              (λ z. omega (arith, z)),
    )
