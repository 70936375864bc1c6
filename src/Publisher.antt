-- ===== src/Publisher.antt =====
-- publisher/pub.c: the client that sends messages to a box. What it prints is left out, and so is the
-- handler of SIGQUIT, which may run at any time.
pub mod Login
mod Tests
use so_server_and_pipes.Base.{
  ℕ, zero, suc, ◌+◌, ◌-◌, ◌*◌, ◌/◌, ◌%◌, ◌^◌, ◌≤◌, ◌<◌, ◌≡◌, refl, sym, ap, ◌∙◌, ◌≢◌, ◌⊎◌, inl, inr,
  Bool, true, false, not, ◌&&◌, ◌||◌, Option, none, some, List, [], ◌∷◌, ◌++◌, arith, ltb, leb,
  ◌==◌, if◌then◌else◌, length, get_or, take, replicate, update, ℤ, pos, negsuc, minus_one,
  is_minus_one, int_of_size, ssize_of_size, find_below, find_from, Finds, IsFirst, find_below-Finds,
  find_from-Finds, find_from-first, find_from-none, Bool-cases, Option-cases, tests, ==→eq, ==→ne,
  eq→==, ne→==, ltb→lt, ltb→le, lt→ltb, le→ltb, length-append, length-replicate, length-take,
  take-length, get_or-append_left, get_or-append_right, get_or-replicate, IsInt, signed32,
  unsigned32, signed32-unsigned32, int_of_size-pos, ssize_of_size-pos, update_self, update-ne, min,
  codes,
}
use so_server_and_pipes.Fs.Memory.{Bytes, write_bytes, load_int}
use so_server_and_pipes.Os.{
  is_positive, Answer, Os, Ran, Prog, done, exited, waiting, outside, pure, exit, exit_if, need,
  exit_failure, is_negative, sys, print, and_then, ◌>>=◌, ◌>>◌, call_open, call_write, call_close,
  call_read, call_unlink, call_mkfifo, call_signal,
}
use so_server_and_pipes.Task.{
  request_buffer_size, request_text, string_at, strcpy, task_to_string, opcode, pipe_path, box_name,
  task_size, message_max_size, pipe_path_max_size,
}

-- `sizeof(pub_wr_request)` and PATH_MAX_SIZE
abbrev pub pub_wr_request_size : ℕ
pub_wr_request_size = 1026

abbrev pub path_max_size : ℕ
path_max_size = 32

-- The task of a login, in a local variable that holds `junk` before.
abbrev pub with_name : List ℕ → Option Bytes → Option Bytes
with_name name none = none
with_name name (some m) = strcpy task_size m box_name name

unfoldable pub login_task : Bytes → List ℕ → List ℕ → Option Bytes
unfolding strcpy write_bytes
login_task junk path name =
    with_name name (strcpy task_size (write_bytes junk opcode (1 ∷ [])) pipe_path path)

-- The text of the request in `pub_request`.
unfoldable pub login_text : Bytes → List ℕ → List ℕ → Option (List ℕ)
unfolding login_task task_to_string
login_text junk path name = request_text (login_task junk path name)

-- What `start_server_connection` does with the client's pipe: the `int` that the server writes.
unfoldable pub server_answer : Bytes → List ℕ → Prog Os ℤ
unfolding write_bytes load_int
server_answer junk path = do
  pub_pipe ← sys (call_open path)
  if is_minus_one pub_pipe.result then pure minus_one else do
    a ← sys (call_read pub_pipe.result 4)
    if is_minus_one a.result
        then pure minus_one
        else (do sys (call_close pub_pipe.result); pure (load_int (write_bytes junk 0 a.bytes) 0))

-- `start_server_connection` from the write on.
unfoldable pub write_login : Bytes → ℤ → List ℕ → List ℕ → Prog Os ℤ
unfolding server_answer
write_login junk server_pipe path text = do
  a ← sys (call_write server_pipe text request_buffer_size)
  if is_minus_one a.result
      then (do sys (call_unlink path); exit exit_failure)
      else server_answer junk path

-- `start_server_connection`
unfoldable pub start_server_connection : Bytes → ℤ → List ℕ → List ℕ → Prog Os ℤ
unfolding login_text write_login
start_server_connection junk server_pipe path name = do
  text ← need (login_text junk path name)
  write_login junk server_pipe path text

-- `wr_task_to_string`, whose value is that of the last operand of a comma.
abbrev pub wr_task_to_string : List ℕ → List ℕ
wr_task_to_string message = message

-- `send_msg_server`
unfoldable pub send_msg_server : Bytes → ℤ → List ℕ → List ℕ → Prog Os (Unit {0})
unfolding strcpy
send_msg_server junk pub_pipe path message = do
  need (strcpy task_size junk pipe_path path)
  need (strcpy pub_wr_request_size junk 0 (wr_task_to_string message))
  a ← sys (call_write pub_pipe (wr_task_to_string message) pub_wr_request_size)
  if is_minus_one a.result
      then (do sys (call_close pub_pipe); sys (call_unlink path); exit exit_failure)
      else pure tt

-- `strcmp(buffer1, "\n") != 0`
abbrev pub is_text : List ℕ → Bool
is_text [] = true
is_text (c ∷ []) = not (c == 10)
is_text (c ∷ d ∷ cs) = true

-- `bytes_read > 0 || strcmp(buffer1, "\n") != 0`
abbrev pub goes_on : Bool → Option (List ℕ) → Prog Os Bool
goes_on true text os = done true os
goes_on false none os = outside os
goes_on false (some s) os = done (is_text s) os

-- The body of the inner loop of `main`, if its test holds. A round that ends the loop begins the
-- outer one again.
unfoldable pub send_round : Bytes → ℤ → List ℕ → Option (List ℕ) → Bool → Prog Os (Unit {0})
unfolding send_msg_server
send_round junk fd path text false os = done tt os
send_round junk fd path text true os = and_then (sys call_signal os) (λ s.
    if is_minus_one s.result
    then pure tt
    else (do message ← need text; send_msg_server junk fd path message))

-- The two loops of `main`, as long as no signal has come. `buffer1` holds `buffer`.
unfoldable pub session : ℕ → Bytes → ℤ → List ℕ → Bytes → Prog Os (Unit {0})
unfolding string_at write_bytes send_round
session zero junk fd path buffer os = waiting os
session (suc k) junk fd path buffer os =
    and_then (sys (call_read (pos 0) message_max_size) os) (λ a os₁.
      let buffer' = write_bytes buffer 0 a.bytes in
      let text = string_at buffer' 0 message_max_size in
      and_then (goes_on (is_positive a.result) text os₁) (λ on os₂.
        and_then (send_round junk fd path text on os₂) (λ _. session k junk fd path buffer')))

-- The checks on the arguments; the strings are argv[2] and argv[3].
abbrev pub are_short : List ℕ → List ℕ → Bool
are_short path name = not (ltb path_max_size (length name) || ltb pipe_path_max_size (length path))

-- `main` from the first open on.
unfoldable pub connect : ℕ → Bytes → List ℕ → List ℕ → List ℕ → Prog Os (Unit {0})
unfolding strcpy start_server_connection session
connect fuel junk register path name = do
  server_pipe ← sys (call_open register)
  exit_if (is_minus_one server_pipe.result) exit_failure
  r ← start_server_connection junk server_pipe.result path name
  exit_if (is_minus_one r) exit_failure
  fd ← sys (call_open path)
  exit_if (is_minus_one fd.result) exit_failure
  need (strcpy pipe_path_max_size junk 0 path)
  session fuel junk fd.result path (write_bytes junk 0 (replicate message_max_size 0))

-- `main` with three arguments.
unfoldable pub main : ℕ → Bytes → List ℕ → List ℕ → List ℕ → Prog Os (Unit {0})
unfolding connect
main fuel junk register path name = do
  exit_if (not (are_short path name)) exit_failure
  a ← sys (call_mkfifo path)
  exit_if (is_minus_one a.result) exit_failure
  connect fuel junk register path name
