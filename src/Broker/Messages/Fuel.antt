-- ===== src/Broker/Messages/Fuel.antt =====
-- The fuel of the loops that have no end: more than the number of the system calls that return is
-- enough.
use so_server_and_pipes.Base.{
  ℕ, zero, suc, ◌+◌, ◌-◌, ◌≤◌, ◌<◌, ◌≡◌, refl, ap, ◌∙◌, Bool, true, false, arith, ◌==◌,
  if◌then◌else◌, length, ℤ, minus_one, is_minus_one,
}
use so_server_and_pipes.Fs.Memory.{Bytes}
use so_server_and_pipes.Os.{
  ◌>>=◌, ◌>>◌, and_then, Prog, pure, exit_failure, sys, call_open, call_close,
}
use so_server_and_pipes.Broker.{Broker, io, name_of, exit_if, is_box_of, rounds}
use so_server_and_pipes.Broker.Messages.{
  unless_over, next_message, append_message, publish, publish_box, answer_int, publish_boxes,
  pub_connect_request, send_message, subscribe,
}
use so_server_and_pipes.Broker.Messages.Calls.{
  IsBelow, IsKeeping, and_then-IsBelow, and_then-same, IsCalling-IsKeeping, then-IsKeeping,
  call_keeps, exit_if_keeps, pure_keeps, if_keeps, next_message_calls, append_to_keeps,
  answer_int_calls, send_message_calls,
}

unless_over-IsBelow :
    (over : Bool) (p : Prog Broker (Unit {0})) (b : Broker) (n : ℕ)
    → length b.os.answers < n
    → IsBelow n (p b)
    → IsBelow n (unless_over over p b)
unless_over-IsBelow true p b n lt h = lt
unless_over-IsBelow false p b n lt h = h

unless_over_same :
    (over : Bool) (p p' : Prog Broker (Unit {0})) (b : Broker)
    → p b ≡ p' b
    → unless_over over p b ≡ unless_over over p' b
unless_over_same true p p' b h = refl
unless_over_same false p p' b h = h

publish_keeps : (k : ℕ) (junk : Bytes) (task : ℕ) (fd : ℤ) → IsKeeping (publish k junk task fd)
unfolding publish append_message
publish_keeps zero junk task fd = record { kept = λ b n lt. tt }
publish_keeps (suc k) junk task fd = record {
  kept = λ b n lt.
      and_then-IsBelow (next_message junk fd b) _ n n
        ((next_message_calls junk fd).used b n (omega (arith, lt)))
        (λ text b' lt'.
          and_then-IsBelow (append_message task text b') _ n n
            ((append_to_keeps (name_of b' task) text).kept b' n lt')
            (λ over b'' lt''.
              unless_over-IsBelow over _ b'' n lt''
                ((publish_keeps k junk task fd).kept b'' n lt'')));
}

publish-fuel :
    (k k' n : ℕ) (junk : Bytes) (task : ℕ) (fd : ℤ) (b : Broker)
    → length b.os.answers ≤ n
    → n < k
    → n < k'
    → publish k junk task fd b ≡ publish k' junk task fd b
unfolding publish append_message
publish-fuel zero k' n junk task fd b h lt lt' = absurd (omega arith)
publish-fuel (suc k) zero n junk task fd b h lt lt' = absurd (omega arith)
publish-fuel (suc k) (suc k') n junk task fd b h lt lt' =
    and_then-same (next_message junk fd b) _ _ n ((next_message_calls junk fd).used b n h)
      (λ text b' h'.
        and_then-same (append_message task text b') _ _ n
          ((append_to_keeps (name_of b' task) text).kept b' n h')
          (λ over b'' h''. unless_over_same over _ _ b'' (
            publish-fuel k k' (n - 1) junk task fd b'' (omega (arith, h'')) (omega (arith, h''))
              (omega (arith, h'')))))

pub subscribe_keeps :
    (k : ℕ) (sub_pipe tfs_fd : ℤ) (buffer : Bytes) → IsKeeping (subscribe k sub_pipe tfs_fd buffer)
unfolding subscribe
subscribe_keeps zero sub_pipe tfs_fd buffer = record { kept = λ b n lt. tt }
subscribe_keeps (suc k) sub_pipe tfs_fd buffer = record {
  kept = λ b n lt.
      and_then-IsBelow (send_message sub_pipe tfs_fd buffer b) _ n n
        ((send_message_calls sub_pipe tfs_fd buffer).used b n (omega (arith, lt)))
        (λ buffer' b' lt'. (subscribe_keeps k sub_pipe tfs_fd buffer').kept b' n lt');
}

pub subscribe-fuel :
    (k k' n : ℕ) (sub_pipe tfs_fd : ℤ) (buffer : Bytes) (b : Broker)
    → length b.os.answers ≤ n
    → n < k
    → n < k'
    → subscribe k sub_pipe tfs_fd buffer b ≡ subscribe k' sub_pipe tfs_fd buffer b
unfolding subscribe
subscribe-fuel zero k' n sub_pipe tfs_fd buffer b h lt lt' = absurd (omega arith)
subscribe-fuel (suc k) zero n sub_pipe tfs_fd buffer b h lt lt' = absurd (omega arith)
subscribe-fuel (suc k) (suc k') n sub_pipe tfs_fd buffer b h lt lt' =
    and_then-same (send_message sub_pipe tfs_fd buffer b) _ _ n
      ((send_message_calls sub_pipe tfs_fd buffer).used b n h)
      (λ buffer' b' h'.
        subscribe-fuel k k' (n - 1) sub_pipe tfs_fd buffer' b' (omega (arith, h'))
          (omega (arith, h')) (omega (arith, h')))

-- A program that does the same with fuel `k` and `k'`, if `n` is a bound of the answers.
pub record IsSame {ℓ} {A : Type ℓ} (n : ℕ) (p p' : Prog Broker A) : Type ℓ where
  pub same : (b : Broker) → length b.os.answers ≤ n → p b ≡ p' b

pub if_IsSame {ℓ} :
    {A : Type ℓ} {n : ℕ} (v : Bool) {p p' q q' : Prog Broker A}
    → IsSame n p p'
    → IsSame n q q'
    → IsSame n (if v then p else q) (if v then p' else q')
if_IsSame true hp hq = hp
if_IsSame false hp hq = hq

pub refl_IsSame {ℓ} : {A : Type ℓ} {n : ℕ} (p : Prog Broker A) → IsSame n p p
refl_IsSame p = record { same = λ b h. refl }

pub then-IsSame {ℓ κ} :
    {A : Type ℓ} {B : Type κ} {n : ℕ} {p p' : Prog Broker A} {k k' : A → Prog Broker B}
    → IsKeeping p
    → IsSame n p p'
    → ((a : A) → IsSame n (k a) (k' a))
    → IsSame n (p >>= k) (p' >>= k')
then-IsSame {n = n} {p = p} {p' = p'} {k = k} {k' = k'} keeps hp hk = record {
  same = λ b h.
      and_then-same (p b) k k' (suc n) (keeps.kept b (suc n) (omega (arith, h)))
        (λ a b' lt. (hk a).same b' (omega (arith, lt)))
      ∙ ap (λ r. and_then r k') (hp.same b h);
}

-- The parts of pub_connect_request.
module _ (k k' n : ℕ) (enough : n < k) (enough' : n < k') (junk : Bytes) (task : ℕ) where
  publish-IsSame : (fd : ℤ) → IsSame n (publish k junk task fd) (publish k' junk task fd)
  publish-IsSame fd = record { same = λ b h. publish-fuel k k' n junk task fd b h enough enough' }

  publish_box_keeps : (fd : ℤ) (i : ℕ) (v : Bool) → IsKeeping (publish_box k junk task fd i v)
  unfolding publish_box
  publish_box_keeps fd i false = pure_keeps tt
  publish_box_keeps fd i true = record {
    kept = λ b.
        (if_keeps ((b.boxes i).num_publishers == 1)
            (IsCalling-IsKeeping (answer_int_calls fd minus_one))
            (publish_keeps k junk task fd)).kept
          b;
  }

  publish_box-IsSame :
      (fd : ℤ) (i : ℕ) (v : Bool)
      → IsSame n (publish_box k junk task fd i v) (publish_box k' junk task fd i v)
  unfolding publish_box
  publish_box-IsSame fd i false = refl_IsSame (pure tt)
  publish_box-IsSame fd i true = record {
    same = λ b.
        (if_IsSame ((b.boxes i).num_publishers == 1) (refl_IsSame (answer_int fd minus_one))
            (publish-IsSame fd)).same
          b;
  }

  publish_boxes-IsSame :
      (r i : ℕ) (fd : ℤ)
      → IsSame n (publish_boxes k r i junk task fd) (publish_boxes k' r i junk task fd)
  unfolding publish_boxes
  publish_boxes-IsSame zero i fd = refl_IsSame (pure tt)
  publish_boxes-IsSame (suc r) i fd = record {
    same = λ b.
        (then-IsSame (publish_box_keeps fd i (is_box_of b task i))
            (publish_box-IsSame fd i (is_box_of b task i))
            (λ _. publish_boxes-IsSame r (i + 1) fd)).same
          b;
  }

  publish_boxes_keeps : (r i : ℕ) (fd : ℤ) → IsKeeping (publish_boxes k r i junk task fd)
  unfolding publish_boxes
  publish_boxes_keeps zero i fd = pure_keeps tt
  publish_boxes_keeps (suc r) i fd = record {
    kept = λ b.
        (then-IsKeeping (publish_box_keeps fd i (is_box_of b task i))
            (λ _. publish_boxes_keeps r (i + 1) fd)).kept
          b;
  }

  pub pub_connect_request-IsSame :
      IsSame n (pub_connect_request k junk task) (pub_connect_request k' junk task)
  unfolding pub_connect_request
  pub_connect_request-IsSame = record {
    same = λ b.
        let path = (b.tasks task).pipe_path in
        let count = rounds b.current_boxes in
        (then-IsSame (IsCalling-IsKeeping (call_keeps (call_open path)))
            (refl_IsSame (io (sys (call_open path))))
            (λ pipe.
              let fd = pipe.result in
              let failed = exit_if (is_minus_one fd) exit_failure in
              then-IsSame (exit_if_keeps (is_minus_one fd) exit_failure) (refl_IsSame failed) (λ _.
                then-IsSame (publish_boxes_keeps count 0 fd) (publish_boxes-IsSame count 0 fd) (λ _.
                  refl_IsSame
                    (answer_int fd minus_one >> (io (sys (call_close fd)) >> pure tt)))))).same
          b;
  }
