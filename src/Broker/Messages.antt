-- ===== src/Broker/Messages.antt =====
-- mbroker/mbroker.c: pub_connect_request and sub_connect_request. The loops that have no end run on
-- fuel; each round makes a system call.
pub mod Calls
pub mod Fuel
pub mod Append
pub mod Stale
use so_server_and_pipes.Base.{
  ℕ, zero, suc, ◌+◌, ◌-◌, ◌*◌, ◌/◌, ◌%◌, ◌^◌, ◌≤◌, ◌<◌, ◌≡◌, refl, sym, ap, ◌∙◌, ◌≢◌, ◌⊎◌, inl, inr,
  Bool, true, false, not, ◌&&◌, ◌||◌, Option, none, some, List, [], ◌∷◌, ◌++◌, arith, ltb, leb,
  ◌==◌, if◌then◌else◌, length, get_or, take, replicate, update, ℤ, pos, negsuc, minus_one,
  is_minus_one, int_of_size, ssize_of_size, find_below, find_from, Finds, IsFirst, find_below-Finds,
  find_from-Finds, find_from-first, find_from-none, Bool-cases, Option-cases, tests, ==→eq, ==→ne,
  eq→==, ne→==, ltb→lt, ltb→le, lt→ltb, le→ltb, length-append, length-replicate, length-take,
  take-length, get_or-append_left, get_or-append_right, get_or-replicate, IsInt, signed32,
  unsigned32, signed32-unsigned32, int_of_size-pos, ssize_of_size-pos, update_self, update-ne, min,
  codes,
}
use so_server_and_pipes.Fs.Memory.{Bytes, write_bytes, int_bytes}
use so_server_and_pipes.Fs.Exec.{index}
use so_server_and_pipes.Fs.Ops.{tfs_open, tfs_read, tfs_write, tfs_close, tfs_o_append}
use so_server_and_pipes.Os.{
  and_then, is_negative, Answer, Call, Os, Ran, Prog, done, exited, waiting, outside, pure, exit,
  stray, exit_failure, sys, ◌>>=◌, ◌>>◌, call_open, call_write, call_close, call_read,
}
pub use so_server_and_pipes.Os.{need}
pub use so_server_and_pipes.Task.Scan.{need_task}
use so_server_and_pipes.Broker.{
  MailBox, Request, Broker, io, tfs, get, put, exit_if, name_of, is_box_of, rounds, max_boxes,
  refuse, task_to_str,
}
use so_server_and_pipes.Task.{string_at, strcpy, field, message, message_max_size}
use so_server_and_pipes.Task.Scan.{Parsed, parsed, no_task, overrun, string_to_task}

-- `sizeof(pub_wr_request)` and `sizeof(sub_rd_request)`
abbrev pub message_request_size : ℕ
message_request_size = 1026

-- The message in the bytes that a read has put into `pub_wr_request`. `junk` is what the memory of
-- local variables holds before they are written.
unfoldable pub parse_message : Bytes → List ℕ → Prog Broker (List ℕ)
unfolding string_at string_to_task write_bytes
parse_message junk bytes = do
  request ← need (string_at (write_bytes junk 0 bytes) 0 message_request_size)
  task_op ← need_task (string_to_task request junk)
  need (field task_op message)

-- The beginning of a round of `pub_connect_request`, up to the call of string_to_task.
unfoldable pub next_message : Bytes → ℤ → Prog Broker (List ℕ)
unfolding parse_message
next_message junk pipe_fd = do
  a ← io (sys (call_read pipe_fd message_request_size))
  if is_minus_one a.result
      then (do io (sys (call_close pipe_fd)); exit exit_failure)
      else parse_message junk a.bytes

-- The write of the message into the box and the close.
unfoldable pub write_message : ℤ → List ℕ → Prog Broker Bool
unfolding tfs_write tfs_close
write_message box_fhandle text = do
  wr ← tfs (tfs_write box_fhandle text (length text))
  exit_if (is_minus_one wr) exit_failure
  tfs (tfs_close box_fhandle)
  pure false

-- The rest of the round, in which the message goes into the box. The result says whether the loop
-- ends; where it does, the handle stays open.
unfoldable pub append_to : List ℕ → List ℕ → Prog Broker Bool
unfolding tfs_open tfs_read write_message
append_to name text = do
  box_fhandle ← tfs (tfs_open (some name) tfs_o_append)
  exit_if (is_minus_one box_fhandle) exit_failure
  (bytes_read, buffer) ← tfs (tfs_read box_fhandle message_max_size)
  exit_if (is_negative bytes_read) exit_failure
  if ltb 1024 (index bytes_read + length text) then pure true else write_message box_fhandle text

unfoldable pub append_message : ℕ → List ℕ → Prog Broker Bool
unfolding append_to
append_message task text b = append_to (name_of b task) text b

-- `break` if the test holds.
abbrev pub unless_over : Bool → Prog Broker (Unit {0}) → Prog Broker (Unit {0})
unless_over true p b = done tt b
unless_over false p b = p b

-- The loop of `pub_connect_request`.
unfoldable pub publish : ℕ → Bytes → ℕ → ℤ → Prog Broker (Unit {0})
unfolding next_message append_message
publish zero junk task pipe_fd b = waiting b
publish (suc k) junk task pipe_fd b = and_then (next_message junk pipe_fd b) (λ text b'.
    and_then (append_message task text b') (λ over. unless_over over (publish k junk task pipe_fd)))

-- `write(pipe, &v, sizeof(int))`, where a failure ends the process.
unfoldable pub answer_int : ℤ → ℤ → Prog Broker (Unit {0})
answer_int pipe_fd v = do
  a ← io (sys (call_write pipe_fd (int_bytes v) 4))
  exit_if (is_negative a.result) exit_failure

-- `pub_connect_request` at box `i`, given whether it has the name.
unfoldable pub publish_box : ℕ → Bytes → ℕ → ℤ → ℕ → Bool → Prog Broker (Unit {0})
unfolding publish answer_int
publish_box fuel junk task pipe_fd i false b = done tt b
publish_box fuel junk task pipe_fd i true b =
    (if (b.boxes i).num_publishers == 1
        then answer_int pipe_fd minus_one
        else publish fuel junk task pipe_fd)
      b

-- The loop of `pub_connect_request` over the boxes, `k` rounds from box `i` on.
unfoldable pub publish_boxes : ℕ → ℕ → ℕ → Bytes → ℕ → ℤ → Prog Broker (Unit {0})
unfolding publish_box
publish_boxes fuel zero i junk task pipe_fd b = done tt b
publish_boxes fuel (suc k) i junk task pipe_fd b =
    and_then (publish_box fuel junk task pipe_fd i (is_box_of b task i) b)
      (λ _. publish_boxes fuel k (i + 1) junk task pipe_fd)

-- `pub_connect_request`
unfoldable pub pub_connect_request : ℕ → Bytes → ℕ → Prog Broker (Unit {0})
unfolding publish_boxes answer_int
pub_connect_request fuel junk task = do
  b ← get
  pipe ← io (sys (call_open (b.tasks task).pipe_path))
  exit_if (is_minus_one pipe.result) exit_failure
  publish_boxes fuel (rounds b.current_boxes) 0 junk task pipe.result
  answer_int pipe.result minus_one
  io (sys (call_close pipe.result))
  pure tt

-- The text in `buffer_box` is written to the subscriber; the result is that buffer.
unfoldable pub send_buffer : ℤ → Bytes → Prog Broker Bytes
unfolding string_at task_to_str
send_buffer sub_pipe buffer_box = do
  text ← need (string_at buffer_box 0 message_max_size)
  a ← io (sys (call_write sub_pipe (task_to_str 10 text) message_request_size))
  if is_minus_one a.result
      then (do io (sys (call_close sub_pipe)); exit exit_failure)
      else pure buffer_box

-- A round of the loop of `sub_connect_request`.
unfoldable pub send_message : ℤ → ℤ → Bytes → Prog Broker Bytes
unfolding write_bytes tfs_read send_buffer
send_message sub_pipe tfs_fd buffer = do
  (bytes_read_box, bytes) ← tfs (tfs_read tfs_fd message_max_size)
  exit_if (is_negative bytes_read_box) exit_failure
  send_buffer sub_pipe (write_bytes buffer 0 bytes)

-- The loop, which only the end of the process ends.
-- No other worker writes to the box between two rounds.
unfoldable pub subscribe : ℕ → ℤ → ℤ → Bytes → Prog Broker (Unit {0})
unfolding send_message
subscribe zero sub_pipe tfs_fd buffer b = waiting b
subscribe (suc k) sub_pipe tfs_fd buffer b =
    and_then (send_message sub_pipe tfs_fd buffer b)
      (λ buffer' b'. subscribe k sub_pipe tfs_fd buffer' b')

-- The box after a subscriber's path is noted in it.
unfoldable pub note_subscriber : MailBox → List ℕ → Option MailBox
unfolding strcpy
note_subscriber box path = elim (strcpy 1024 box.subs_array_pipe_path box.num_subscribers path) [
  | none ↦ none
  | some paths ↦ some (record box {
    subs_array_pipe_path = paths;
    num_subscribers = (box.num_subscribers + 1) % 2 ^ 64;
  })
]

-- The loop of `sub_connect_request` with the box of the name open.
unfoldable pub subscribe_to : ℕ → List ℕ → Bytes → ℤ → Prog Broker (Unit {0})
unfolding tfs_open subscribe
subscribe_to fuel name junk sub_pipe = do
  tfs_fd ← tfs (tfs_open (some name) tfs_o_append)
  exit_if (is_minus_one tfs_fd) exit_failure
  subscribe fuel sub_pipe tfs_fd junk

-- `sub_connect_request` at a box that has another name.
unfoldable pub other_box : ℤ → Prog Broker (Unit {0})
other_box sub_pipe = do
  a ← io (sys (call_write sub_pipe (int_bytes (pos 1)) 4))
  if is_minus_one a.result then (do io (sys (call_close sub_pipe)); exit exit_failure) else pure tt

-- `sub_connect_request` at box `i`, given whether it has the name.
unfoldable pub subscribe_box : ℕ → Bytes → ℕ → ℤ → ℕ → Bool → Prog Broker (Unit {0})
unfolding note_subscriber subscribe_to other_box
subscribe_box fuel junk task sub_pipe i false b = other_box sub_pipe b
subscribe_box fuel junk task sub_pipe i true b =
    and_then (need (note_subscriber (b.boxes i) (b.tasks task).pipe_path) b) (λ box b'.
      subscribe_to fuel (name_of b task) junk sub_pipe (record b' { boxes = update b.boxes i box }))

-- The loop of `sub_connect_request` over the boxes.
unfoldable pub subscribe_boxes : ℕ → ℕ → ℕ → Bytes → ℕ → ℤ → Prog Broker (Unit {0})
unfolding subscribe_box
subscribe_boxes fuel zero i junk task sub_pipe b = done tt b
subscribe_boxes fuel (suc k) i junk task sub_pipe b =
    and_then (subscribe_box fuel junk task sub_pipe i (is_box_of b task i) b)
      (λ _. subscribe_boxes fuel k (i + 1) junk task sub_pipe)

-- `sub_connect_request`
unfoldable pub sub_connect_request : ℕ → Bytes → ℕ → Prog Broker (Unit {0})
unfolding subscribe_boxes
sub_connect_request fuel junk task = do
  b ← get
  pipe ← io (sys (call_open (b.tasks task).pipe_path))
  exit_if (is_minus_one pipe.result) exit_failure
  subscribe_boxes fuel (rounds b.current_boxes) 0 junk task pipe.result
  io (sys (call_close pipe.result))
  pure tt
