-- ===== src/Broker.antt =====
-- mbroker/mbroker.c: the state of the broker, and what its requests share.
pub mod Boxes
pub mod Remove
pub mod Names
pub mod Listing
pub mod Messages
pub mod Serve
pub mod Main
pub mod Samples
mod Tests
use so_server_and_pipes.Base.{
  ℕ, zero, suc, ◌+◌, ◌-◌, ◌*◌, ◌/◌, ◌%◌, ◌^◌, ◌≤◌, ◌<◌, ◌≡◌, refl, sym, ap, ◌∙◌, ◌≢◌, ◌⊎◌, inl, inr,
  Bool, true, false, not, ◌&&◌, ◌||◌, Option, none, some, List, [], ◌∷◌, ◌++◌, arith, ltb, leb,
  ◌==◌, if◌then◌else◌, length, get_or, take, replicate, update, ℤ, pos, negsuc, minus_one,
  is_minus_one, int_of_size, ssize_of_size, find_below, find_from, Finds, IsFirst, find_below-Finds,
  find_from-Finds, find_from-first, find_from-none, Bool-cases, Option-cases, tests, ==→eq, ==→ne,
  eq→==, ne→==, ltb→lt, ltb→le, lt→ltb, le→ltb, length-append, length-replicate, length-take,
  take-length, get_or-append_left, get_or-append_right, get_or-replicate, IsInt, signed32,
  unsigned32, signed32-unsigned32, int_of_size-pos, ssize_of_size-pos, update_self, update-ne, min,
  codes,
}
use so_server_and_pipes.Fs.Memory.{Bytes, write_bytes, read_bytes}
use so_server_and_pipes.Fs.Exec.{Fs, Run, ok, panic, fault, blocked, index, Cmd}
use so_server_and_pipes.Fs.Setup.{is_zero}
use so_server_and_pipes.Os.{
  Answer, Call, Os, Ran, Prog, done, exited, waiting, outside, pure, exit, stray, exit_failure, sys,
  ◌>>=◌, ◌>>◌, call_open, call_write, call_close, call_read,
}
pub use so_server_and_pipes.Os.{exit_if}
use so_server_and_pipes.Task.{print_byte, print_int, cut}

-- `mail_box`. The name is a pointer to the name in a task.
pub record MailBox : Type 0 where
  pub box_name : ℕ
  pub last : ℕ
  pub box_size : ℕ
  pub num_publishers : ℕ
  pub num_subscribers : ℕ
  pub subs_array_pipe_path : Bytes

-- A task by the strings in its fields.
pub record Request : Type 0 where
  pub opcode : ℕ
  pub pipe_path : List ℕ
  pub box_name : List ℕ
  pub message : List ℕ

-- `boxes` and `current_boxes`, the tasks that pointers lead to, the file system, and the system calls.
pub record Broker : Type 0 where
  pub boxes : ℕ → MailBox
  pub current_boxes : ℤ
  pub tasks : ℕ → Request
  pub fs : Fs
  pub os : Os

-- The system calls and the file system, from within the broker. A failed assertion of the file system
-- ends the process by exit(EXIT_FAILURE).
abbrev pub on_os {ℓ} : {A : Type ℓ} → Broker → Ran Os A → Ran Broker A
on_os b (done a os) = done a (record b { os = os })
on_os b (exited c os) = exited c (record b { os = os })
on_os b (waiting os) = waiting (record b { os = os })
on_os b (outside os) = outside (record b { os = os })

abbrev pub io {ℓ} : {A : Type ℓ} → Prog Os A → Prog Broker A
io p b = on_os b (p b.os)

abbrev pub on_fs {ℓ} : {A : Type ℓ} → Broker → Run A → Ran Broker A
on_fs b (ok a fs) = done a (record b { fs = fs })
on_fs b panic = exited exit_failure b
on_fs b fault = outside b
on_fs b blocked = waiting b

abbrev pub tfs {ℓ} : {A : Type ℓ} → Cmd A → Prog Broker A
tfs c b = on_fs b (c b.fs)

abbrev pub get : Prog Broker Broker
get b = done b b

abbrev pub put : Broker → Prog Broker (Unit {0})
put b' b = done tt b'

-- `strcmp(s, t) == 0`
abbrev pub str_eq : List ℕ → List ℕ → Bool
str_eq [] [] = true
str_eq [] (d ∷ ds) = false
str_eq (c ∷ cs) [] = false
str_eq (c ∷ cs) (d ∷ ds) = c == d && str_eq cs ds

-- `strcmp(builder_t->box_name, boxes[i].box_name) == 0`; the task is its address.
abbrev pub name_of : Broker → ℕ → List ℕ
name_of b task = (b.tasks task).box_name

abbrev pub is_box_of : Broker → ℕ → ℕ → Bool
is_box_of b task i = str_eq (name_of b (b.boxes i).box_name) (name_of b task)

-- The rounds of a loop up to `current_boxes`: none if that is negative.
abbrev pub rounds : ℤ → ℕ
rounds (pos n) = n
rounds (negsuc n) = 0

-- The bound of `boxes`.
abbrev pub max_boxes : ℕ
max_boxes = 32

-- `task_error_box_to_str`
unfoldable pub task_error_box_to_str : ℕ → ℤ → List ℕ → List ℕ
unfolding print_byte print_int
task_error_box_to_str op value text =
    cut (print_byte op ++ (b'|' ∷ print_int value ++ (b'|' ∷ text)))

-- `task_to_str`
unfoldable pub task_to_str : ℕ → List ℕ → List ℕ
unfolding print_byte
task_to_str op text = cut (print_byte op ++ (b'|' ∷ text))

-- The answer to a request about a box that fails: it is written to the client's pipe, and the process
-- ends if that fails. The buffer has 1031 bytes.
unfoldable pub refuse : ℤ → List ℕ → Prog Broker (Unit {0})
unfolding task_error_box_to_str
refuse pipe_fd text = do
  a ← io (sys (call_write pipe_fd (task_error_box_to_str 4 minus_one text) 1031))
  exit_if (is_minus_one a.result) exit_failure
