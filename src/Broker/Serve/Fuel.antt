-- ===== src/Broker/Serve/Fuel.antt =====
-- The fuel of the broker: more than the number of the system calls that return is enough.
use so_server_and_pipes.Base.{
  ℕ, zero, suc, ◌+◌, ◌<◌, ◌≡◌, refl, Bool, true, false, some, List, arith, ◌==◌, length, update, ℤ,
  pos, is_minus_one,
}
use so_server_and_pipes.Fs.Memory.{Bytes, int_bytes}
use so_server_and_pipes.Fs.Ops.{tfs_open, tfs_o_append}
use so_server_and_pipes.Os.{◌>>◌, pure, exit_failure, sys, call_open, call_close, call_write}
use so_server_and_pipes.Broker.{Broker, io, tfs, name_of, exit_if, is_box_of, rounds}
use so_server_and_pipes.Broker.Boxes.{box_create_request, box_remove_request}
use so_server_and_pipes.Broker.Messages.{
  need, note_subscriber, subscribe_to, subscribe_box, other_box, subscribe_boxes,
  sub_connect_request,
}
use so_server_and_pipes.Broker.Serve.{serve, switch_to}
use so_server_and_pipes.Broker.Messages.Calls.{
  IsKeeping, and_then-IsBelow, and_then-same, IsCalling-IsKeeping, then-IsKeeping, call_keeps,
  tfs_keeps, exit_if_keeps, need_keeps, pure_keeps, unless_failed,
}
use so_server_and_pipes.Broker.Messages.Fuel.{
  IsSame, subscribe_keeps, subscribe-fuel, if_IsSame, refl_IsSame, then-IsSame,
  pub_connect_request-IsSame,
}

-- The parts of sub_connect_request.
module _ (k k' n : ℕ) (enough : n < k) (enough' : n < k') (junk : Bytes) (task : ℕ) where
  subscribe_to_keeps : (name : List ℕ) (fd : ℤ) → IsKeeping (subscribe_to k name junk fd)
  unfolding subscribe_to
  subscribe_to_keeps name fd = then-IsKeeping (tfs_keeps (tfs_open (some name) tfs_o_append)) (λ h.
      then-IsKeeping (exit_if_keeps (is_minus_one h) exit_failure)
        (λ _. subscribe_keeps k fd h junk))

  subscribe_to-IsSame :
      (name : List ℕ) (fd : ℤ)
      → IsSame n (subscribe_to k name junk fd) (subscribe_to k' name junk fd)
  unfolding subscribe_to
  subscribe_to-IsSame name fd =
      let opens = tfs (tfs_open (some name) tfs_o_append) in
      then-IsSame (tfs_keeps (tfs_open (some name) tfs_o_append)) (refl_IsSame opens) (λ h.
        then-IsSame (exit_if_keeps (is_minus_one h) exit_failure)
          (refl_IsSame (exit_if (is_minus_one h) exit_failure))
          (λ _. record { same = λ b le. subscribe-fuel k k' n fd h junk b le enough enough' }))

  other_box_keeps : (fd : ℤ) → IsKeeping (other_box fd)
  unfolding other_box
  other_box_keeps fd =
      then-IsKeeping (IsCalling-IsKeeping (call_keeps (call_write fd (int_bytes (pos 1)) 4)))
        (λ a. unless_failed fd (is_minus_one a.result) (pure tt) (pure_keeps tt))

  subscribe_box_keeps : (fd : ℤ) (i : ℕ) (v : Bool) → IsKeeping (subscribe_box k junk task fd i v)
  unfolding subscribe_box
  subscribe_box_keeps fd i false = record { kept = (other_box_keeps fd).kept }
  subscribe_box_keeps fd i true = record {
    kept = λ b m lt.
        let noted = note_subscriber (b.boxes i) (b.tasks task).pipe_path in
        and_then-IsBelow (need noted b) _ m m ((need_keeps noted).kept b m lt) (λ box b' lt'.
          (subscribe_to_keeps (name_of b task) fd).kept (record b' { boxes = update b.boxes i box })
            m lt');
  }

  subscribe_box-IsSame :
      (fd : ℤ) (i : ℕ) (v : Bool)
      → IsSame n (subscribe_box k junk task fd i v) (subscribe_box k' junk task fd i v)
  unfolding subscribe_box
  subscribe_box-IsSame fd i false = record { same = λ b le. refl }
  subscribe_box-IsSame fd i true = record {
    same = λ b le.
        let noted = note_subscriber (b.boxes i) (b.tasks task).pipe_path in
        and_then-same (need noted b) _ _ (suc n)
          ((need_keeps noted).kept b (suc n) (omega (arith, le)))
          (λ box b' lt.
            (subscribe_to-IsSame (name_of b task) fd).same
              (record b' { boxes = update b.boxes i box }) (omega (arith, lt)));
  }

  subscribe_boxes-IsSame :
      (r i : ℕ) (fd : ℤ)
      → IsSame n (subscribe_boxes k r i junk task fd) (subscribe_boxes k' r i junk task fd)
  unfolding subscribe_boxes
  subscribe_boxes-IsSame zero i fd = refl_IsSame (pure tt)
  subscribe_boxes-IsSame (suc r) i fd = record {
    same = λ b.
        (then-IsSame (subscribe_box_keeps fd i (is_box_of b task i))
            (subscribe_box-IsSame fd i (is_box_of b task i))
            (λ _. subscribe_boxes-IsSame r (i + 1) fd)).same
          b;
  }

  subscribe_boxes_keeps : (r i : ℕ) (fd : ℤ) → IsKeeping (subscribe_boxes k r i junk task fd)
  unfolding subscribe_boxes
  subscribe_boxes_keeps zero i fd = pure_keeps tt
  subscribe_boxes_keeps (suc r) i fd = record {
    kept = λ b.
        (then-IsKeeping (subscribe_box_keeps fd i (is_box_of b task i))
            (λ _. subscribe_boxes_keeps r (i + 1) fd)).kept
          b;
  }

  sub_connect_request-IsSame :
      IsSame n (sub_connect_request k junk task) (sub_connect_request k' junk task)
  unfolding sub_connect_request
  sub_connect_request-IsSame = record {
    same = λ b.
        let path = (b.tasks task).pipe_path in
        let count = rounds b.current_boxes in
        (then-IsSame (IsCalling-IsKeeping (call_keeps (call_open path)))
            (refl_IsSame (io (sys (call_open path))))
            (λ pipe.
              let fd = pipe.result in
              let failed = exit_if (is_minus_one fd) exit_failure in
              then-IsSame (exit_if_keeps (is_minus_one fd) exit_failure) (refl_IsSame failed) (λ _.
                then-IsSame (subscribe_boxes_keeps count 0 fd) (subscribe_boxes-IsSame count 0 fd)
                  (λ _. refl_IsSame (io (sys (call_close fd)) >> pure tt))))).same
          b;
  }

-- With more fuel than system calls that return, a request does the same whatever the fuel is: the
-- loops that have no end run until the process ends, or until a system call does not return.
pub serve-fuel :
    (fuel fuel' : ℕ) (junk : Bytes) (task : ℕ) (b : Broker)
    → length b.os.answers < fuel
    → length b.os.answers < fuel'
    → serve fuel junk task b ≡ serve fuel' junk task b
unfolding serve switch_to
serve-fuel fuel fuel' junk task b enough enough' =
    let n = length b.os.answers in
    let op = (b.tasks task).opcode in
    (if_IsSame {n = n} (op == 1) (pub_connect_request-IsSame fuel fuel' n enough enough' junk task)
        (if_IsSame (op == 2) (sub_connect_request-IsSame fuel fuel' n enough enough' junk task) (
          if_IsSame (op == 3) (refl_IsSame (do box_create_request task; box_remove_request task)) (
            if_IsSame (op == 5) (refl_IsSame (box_remove_request task))
              (refl_IsSame (pure tt)))))).same
      b (omega arith)
