-- ===== src/Broker/Serve.antt =====
-- mbroker/mbroker.c: init_server, task_handler, and a round of the loop of main.
pub mod Accept
pub mod Create
pub mod Place
pub mod Fuel
use so_server_and_pipes.Base.{
  not, ◌&&◌, ℕ, zero, suc, ◌+◌, ◌-◌, ◌*◌, ◌/◌, ◌%◌, ◌^◌, ◌≤◌, ◌<◌, ◌≡◌, refl, sym, ap, ◌∙◌, ◌≢◌,
  ◌⊎◌, inl, inr, Bool, true, false, not, ◌&&◌, ◌||◌, Option, none, some, List, [], ◌∷◌, ◌++◌, arith,
  ltb, leb, ◌==◌, if◌then◌else◌, length, get_or, take, replicate, update, ℤ, pos, negsuc, minus_one,
  is_minus_one, int_of_size, ssize_of_size, find_below, find_from, Finds, IsFirst, find_below-Finds,
  find_from-Finds, find_from-first, find_from-none, Bool-cases, Option-cases, tests, ==→eq, ==→ne,
  eq→==, ne→==, ltb→lt, ltb→le, lt→ltb, le→ltb, length-append, length-replicate, length-take,
  take-length, get_or-append_left, get_or-append_right, get_or-replicate, IsInt, signed32,
  unsigned32, signed32-unsigned32, int_of_size-pos, ssize_of_size-pos, update_self, update-ne, min,
  codes,
}
use so_server_and_pipes.Fs.Memory.{Bytes, write_bytes}
use so_server_and_pipes.Fs.Setup.{Mallocs, tfs_init}
use so_server_and_pipes.Os.{
  call_mkfifo, call_unlink, and_then, is_negative, Answer, Call, Os, Ran, Prog, done, exited,
  waiting, outside, pure, exit, stray, exit_failure, sys, ◌>>=◌, ◌>>◌, call_open, call_write,
  call_close, call_read, call_signal, call_unlink,
}
use so_server_and_pipes.Broker.{
  MailBox, Request, Broker, io, on_os, on_fs, tfs, get, put, exit_if, name_of, is_box_of, rounds,
  max_boxes, refuse, str_eq,
}
use so_server_and_pipes.Broker.Boxes.{box_create_request, box_remove_request}
use so_server_and_pipes.Broker.Messages.{pub_connect_request, sub_connect_request, need, need_task}
use so_server_and_pipes.Task.{string_at, field, opcode, pipe_path, box_name, message, task_size}
use so_server_and_pipes.Task.Scan.{string_to_task}

-- `init_server`, given whether malloc gives a queue. What it returns.
unfoldable pub init_server : Mallocs → Bool → Prog Broker ℤ
unfolding tfs_init
init_server mallocs queue = do
  r ← tfs (tfs_init mallocs none)
  if is_minus_one r then pure minus_one else pure (if queue then pos 0 else minus_one)

-- The opening of the server's pipe in `main`.
unfoldable pub open_pipe : List ℕ → Prog Broker ℤ
open_pipe pipe_name = do
  u ← io (sys (call_unlink pipe_name))
  exit_if (is_minus_one u.result && not u.enoent) exit_failure
  m ← io (sys (call_mkfifo pipe_name))
  exit_if (is_minus_one m.result) exit_failure
  server_pipe ← io (sys (call_open pipe_name))
  exit_if (is_minus_one server_pipe.result) exit_failure
  pure server_pipe.result

-- The switch of `task_handler`: the case of OP_CODE_CREATE_BOX has no break.
unfoldable pub switch_to : ℕ → Bytes → ℕ → ℕ → Prog Broker (Unit {0})
unfolding pub_connect_request sub_connect_request box_create_request box_remove_request
switch_to fuel junk task op =
    if op == 1
    then pub_connect_request fuel junk task
    else if op == 2
    then sub_connect_request fuel junk task
    else if op == 3
    then (do box_create_request task; box_remove_request task)
    else if op == 5
    then box_remove_request task
    else pure tt

unfoldable pub serve : ℕ → Bytes → ℕ → Prog Broker (Unit {0})
unfolding switch_to
serve fuel junk task b = switch_to fuel junk task (b.tasks task).opcode b

-- `task_handler`, on the pointers that pcq_dequeue returns, 0 for NULL; behind the last it waits.
unfoldable pub task_handler : ℕ → Bytes → List ℕ → Prog Broker (Unit {0})
unfolding serve
task_handler fuel junk [] b = waiting b
task_handler fuel junk (task ∷ tasks) b =
    if task == 0
    then exited exit_failure b
    else and_then (serve fuel junk task b) (λ _. task_handler fuel junk tasks)

-- The strings in a task, if they are strings.
unfoldable pub view : Bytes → Option Request
unfolding string_at
view m = elim (field m pipe_path) [
  | none ↦ none
  | some p ↦ elim (field m box_name) [
    | none ↦ none
    | some n ↦ elim (field m message) [
      | none ↦ none
      | some t ↦ some (record { opcode = m opcode; pipe_path = p; box_name = n; message = t })
    ]
  ]
]

-- The opcodes that `main` puts into the queue.
abbrev pub is_queued : ℕ → Bool
is_queued op = op == 1 || op == 2 || op == 3 || op == 7 || op == 5

-- `sizeof(request)`; `main` asks for `sizeof(task)` bytes.
abbrev pub request_size : ℕ
request_size = 291

-- An access that is inside an object, or is not.
abbrev pub within : Bool → Prog Broker (Unit {0})
within true b = done tt b
within false b = outside b

-- A round from string_to_task on: the task becomes the local variable at address `task_op`.
unfoldable pub store_request : Bytes → ℕ → List ℕ → Prog Broker (Unit {0})
unfolding string_to_task view
store_request junk task_op request = do
  m ← need_task (string_to_task request junk)
  r ← need (view m)
  b ← get
  put (record b { tasks = update b.tasks task_op r })

-- The bytes that a read has put into `request`, which is read as a string.
unfoldable pub copy_request : Bytes → ℕ → List ℕ → Prog Broker (Unit {0})
unfolding string_at write_bytes store_request
copy_request junk task_op bytes = do
  within (leb (length bytes) request_size)
  request ← need (string_at (write_bytes junk 0 bytes) 0 request_size)
  store_request junk task_op request

-- The first half of a round. `junk` is what the memory of local variables holds before.
unfoldable pub read_request : Bytes → ℤ → ℕ → Prog Broker (Unit {0})
unfolding copy_request
read_request junk server_pipe task_op = do
  a ← io (sys (call_read server_pipe task_size))
  exit_if (is_negative a.result) minus_one
  copy_request junk task_op a.bytes

-- The end of a round, which sets the handler of SIGINT; where that fails, the process ends.
unfoldable pub catch_interrupt : ℤ → List ℕ → Prog Broker (Unit {0})
catch_interrupt server_pipe pipe_name = do
  a ← io (sys call_signal)
  if is_minus_one a.result
      then (do io (sys (call_close server_pipe)); io (sys (call_unlink pipe_name)); exit (pos 0))
      else pure tt

-- The other half: the pointer that goes into the queue, if one does.
unfoldable pub queue_request : ℤ → List ℕ → ℕ → Prog Broker (Option ℕ)
unfolding catch_interrupt
queue_request server_pipe pipe_name task_op = do
  b ← get
  catch_interrupt server_pipe pipe_name
  pure (if is_queued (b.tasks task_op).opcode then some task_op else none)

-- A round of the loop of `main`.
unfoldable pub accept : Bytes → ℤ → List ℕ → ℕ → Prog Broker (Option ℕ)
unfolding read_request queue_request
accept junk server_pipe pipe_name task_op = do
  read_request junk server_pipe task_op
  queue_request server_pipe pipe_name task_op
