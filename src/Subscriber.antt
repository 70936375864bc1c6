-- ===== src/Subscriber.antt =====
-- subscriber/sub.c: the client that receives the messages of a box. What it prints on the way and the
-- count of the messages are left out, and so is the handler of SIGINT, which may run at any time.
pub mod Receive
mod Tests
use so_server_and_pipes.Base.{
  ℕ, zero, suc, ◌+◌, ◌-◌, ◌*◌, ◌/◌, ◌%◌, ◌^◌, ◌≤◌, ◌<◌, ◌≡◌, refl, sym, ap, ◌∙◌, ◌≢◌, ◌⊎◌, inl, inr,
  Bool, true, false, not, ◌&&◌, ◌||◌, Option, none, some, List, [], ◌∷◌, ◌++◌, arith, ltb, leb,
  ◌==◌, if◌then◌else◌, length, get_or, take, replicate, update, ℤ, pos, negsuc, minus_one,
  is_minus_one, int_of_size, ssize_of_size, find_below, find_from, Finds, IsFirst, find_below-Finds,
  find_from-Finds, find_from-first, find_from-none, Bool-cases, Option-cases, tests, ==→eq, ==→ne,
  eq→==, ne→==, ltb→lt, ltb→le, lt→ltb, le→ltb, length-append, length-replicate, length-take,
  take-length, get_or-append_left, get_or-append_right, get_or-replicate, IsInt, signed32,
  unsigned32, signed32-unsigned32, int_of_size-pos, ssize_of_size-pos, update_self, update-ne, min,
  codes,
}
use so_server_and_pipes.Fs.Memory.{Bytes, write_bytes, read_bytes, load_int}
use so_server_and_pipes.Os.{
  is_positive, Answer, Os, Ran, Prog, done, exited, waiting, outside, pure, exit, exit_if, need,
  exit_failure, is_negative, sys, and_then, ◌>>=◌, ◌>>◌, call_open, call_write, call_close,
  call_read, call_unlink, call_mkfifo, call_signal,
}
use so_server_and_pipes.Task.{
  string_at, message, message_max_size, strcpy, task_to_string, opcode, pipe_path, box_name,
  task_size,
}
use so_server_and_pipes.Task.Scan.{need_task, string_to_task}

-- The task of a login, in a local variable that holds `junk` before.
abbrev pub subscribe_name : List ℕ → Option Bytes → Option Bytes
subscribe_name name none = none
subscribe_name name (some m) = strcpy task_size m box_name name

unfoldable pub subscribe_task : Bytes → List ℕ → List ℕ → Option Bytes
unfolding strcpy write_bytes
subscribe_task junk path name =
    subscribe_name name (strcpy task_size (write_bytes junk opcode (2 ∷ [])) pipe_path path)

-- `start_server_connection` up to the write of the request; `strcpu` is the text that the buffer
-- begins with after the call of that name.
unfoldable pub subscribe_request :
    (List ℕ → List ℕ) → Bytes → ℤ → List ℕ → List ℕ → Prog Os (Unit {0})
unfolding subscribe_task task_to_string
subscribe_request strcpu junk server_pipe path name = do
  m ← need (subscribe_task junk path name)
  text ← need (task_to_string m)
  w ← sys (call_write server_pipe (strcpu text) task_size)
  exit_if (is_minus_one w.result) exit_failure

-- The end of `start_server_connection`, behind the write of the request: the `int` that the server
-- writes to the client's pipe.
unfoldable pub server_answer : Bytes → List ℕ → Prog Os ℤ
unfolding write_bytes load_int
server_answer junk path = do
  sub_pipe ← sys (call_open path)
  if is_minus_one sub_pipe.result then pure minus_one else do
    a ← sys (call_read sub_pipe.result 4)
    if is_minus_one a.result
        then pure minus_one
        else do sys (call_close sub_pipe.result); pure (load_int (write_bytes junk 0 a.bytes) 0)

-- `sizeof(sub_res)`, and `sizeof(message)`, which is what a read asks for.
abbrev pub sub_res_size : ℕ
sub_res_size = 1026

abbrev pub read_size : ℕ
read_size = 1025

-- The close of both pipes, and the unlink.
abbrev pub close_all : ℤ → ℤ → List ℕ → Prog Os (Unit {0})
close_all sub_fd server_fd path = do
  sys (call_close sub_fd)
  sys (call_close server_fd)
  sys (call_unlink path)
  pure tt

-- The body of the inner loop of `main`, behind the call of string_to_task.
unfoldable pub show_message : ℤ → ℤ → List ℕ → Bytes → Prog Os (Unit {0})
show_message sub_fd server_fd path m = do
  w ← sys (call_write (pos 1) (read_bytes m message message_max_size) message_max_size)
  if is_negative w.result then (do close_all sub_fd server_fd path; exit exit_failure) else do
    s ← sys call_signal
    if is_minus_one s.result
        then (do close_all sub_fd server_fd path; exit exit_failure)
        else pure tt

-- The body, from the call of string_to_task on.
unfoldable pub receive_string : Bytes → ℤ → ℤ → List ℕ → List ℕ → Prog Os (Unit {0})
unfolding string_to_task show_message
receive_string junk sub_fd server_fd path s = do
  m ← need_task (string_to_task s junk)
  show_message sub_fd server_fd path m

-- A round of the inner loop, given whether its test holds; if not, the outer loop begins it again.
unfoldable pub receive : Bytes → ℤ → ℤ → List ℕ → Bytes → Bool → Prog Os (Unit {0})
unfolding string_at receive_string
receive junk sub_fd server_fd path sub_res false = pure tt
receive junk sub_fd server_fd path sub_res true = do
  s ← need (string_at sub_res 0 sub_res_size)
  receive_string junk sub_fd server_fd path s

-- The two loops of `main`, as long as no signal has come.
unfoldable pub session : ℕ → Bytes → ℤ → ℤ → List ℕ → Bytes → Prog Os (Unit {0})
unfolding write_bytes receive
session zero junk sub_fd server_fd path sub_res os = waiting os
session (suc k) junk sub_fd server_fd path sub_res os =
    and_then (sys (call_read sub_fd read_size) os) (λ a os₁.
      let sub_res' = write_bytes sub_res 0 a.bytes in
      and_then (receive junk sub_fd server_fd path sub_res' (is_positive a.result) os₁)
        (λ _. session k junk sub_fd server_fd path sub_res'))

-- `start_server_connection`
unfoldable pub start_server_connection : (List ℕ → List ℕ) → Bytes → ℤ → List ℕ → List ℕ → Prog Os ℤ
unfolding subscribe_request server_answer
start_server_connection strcpu junk server_pipe path name = do
  subscribe_request strcpu junk server_pipe path name
  server_answer junk path

-- `main` behind the opening of the server's pipe.
unfoldable pub subscribe_session :
    (List ℕ → List ℕ) → ℕ → Bytes → ℤ → List ℕ → List ℕ → Prog Os (Unit {0})
unfolding start_server_connection session
subscribe_session strcpu fuel junk server_fd path name = do
  r ← start_server_connection strcpu junk server_fd path name
  exit_if (is_minus_one r) exit_failure
  sub_fd ← sys (call_open path)
  exit_if (is_negative sub_fd.result) exit_failure
  session fuel junk sub_fd.result server_fd path junk

-- `main`, with the arguments behind the program's name. With fewer than three it returns -1.
unfoldable pub main : (List ℕ → List ℕ) → ℕ → Bytes → List (List ℕ) → Prog Os (Unit {0})
unfolding subscribe_session
main strcpu fuel junk [] = exit minus_one
main strcpu fuel junk (server_pipe ∷ []) = exit minus_one
main strcpu fuel junk (server_pipe ∷ (path ∷ [])) = exit minus_one
main strcpu fuel junk (server_pipe ∷ (path ∷ (name ∷ more))) = do
  f ← sys (call_mkfifo path)
  exit_if (is_minus_one f.result) exit_failure
  server_fd ← sys (call_open server_pipe)
  exit_if (is_negative server_fd.result) exit_failure
  subscribe_session strcpu fuel junk server_fd.result path name
