-- ===== src/Manager.antt =====
-- manager/manager.c: the client that makes, removes and lists boxes. Of what it prints only the answers
-- are kept.
pub mod Requests
mod Tests
use so_server_and_pipes.Base.{
  ℕ, zero, suc, ◌+◌, ◌-◌, ◌*◌, ◌/◌, ◌%◌, ◌^◌, ◌≤◌, ◌<◌, ◌≡◌, refl, sym, ap, ◌∙◌, ◌≢◌, ◌⊎◌, inl, inr,
  Bool, true, false, not, ◌&&◌, ◌||◌, Option, none, some, List, [], ◌∷◌, ◌++◌, arith, ltb, leb,
  ◌==◌, if◌then◌else◌, length, get_or, take, replicate, update, ℤ, pos, negsuc, minus_one,
  is_minus_one, int_of_size, ssize_of_size, find_below, find_from, Finds, IsFirst, find_below-Finds,
  find_from-Finds, find_from-first, find_from-none, Bool-cases, Option-cases, tests, ==→eq, ==→ne,
  eq→==, ne→==, ltb→lt, ltb→le, lt→ltb, le→ltb, length-append, length-replicate, length-take,
  take-length, get_or-append_left, get_or-append_right, get_or-replicate, IsInt, signed32,
  unsigned32, signed32-unsigned32, int_of_size-pos, ssize_of_size-pos, update_self, update-ne, min,
  codes,
}
use so_server_and_pipes.Fs.Memory.{Bytes, write_bytes, read_bytes, load_int, strncpy_bytes}
use so_server_and_pipes.Os.{
  Answer, Os, Ran, Prog, done, exited, waiting, outside, pure, exit, exit_if, need, exit_failure,
  is_negative, sys, print, and_then, ◌>>=◌, ◌>>◌, call_open, call_write, call_close, call_read,
  call_unlink, call_mkfifo,
}
use so_server_and_pipes.Fs.Setup.{is_zero}
use so_server_and_pipes.Broker.{rounds, str_eq}
use so_server_and_pipes.Task.{
  request_text, string_at, strcpy, field, opcode, pipe_path, box_name, error, return_value,
  task_size, max_box_name, request_buffer_size,
}
use so_server_and_pipes.Task.Scan.{need_task, string_to_task}

-- The beginning of `start_server_connection`: the client's pipe, and the server's.
unfoldable pub open_server : List ℕ → List ℕ → Prog Os ℤ
open_server server_pipe_path path = do
  u ← sys (call_unlink path)
  exit_if (is_minus_one u.result && not u.enoent) exit_failure
  m ← sys (call_mkfifo path)
  exit_if (is_minus_one m.result) exit_failure
  server_fd ← sys (call_open server_pipe_path)
  exit_if (is_minus_one server_fd.result) exit_failure
  pure server_fd.result

-- The task of a request about a box, in a local variable that holds `junk` before.
abbrev pub with_box_name : ℕ → List ℕ → Option Bytes → Option Bytes
with_box_name op name none = none
with_box_name op name (some m) =
    some (write_bytes (write_bytes m opcode (op ∷ [])) box_name (strncpy_bytes name max_box_name))

unfoldable pub box_task : Bytes → ℕ → List ℕ → List ℕ → Option Bytes
unfolding strcpy write_bytes
box_task junk op path name = with_box_name op name (strcpy task_size junk pipe_path path)

-- `sizeof(res_create)` and `sizeof(res_remove)`; `sizeof(req_list)`; `sizeof(res_list)`
abbrev pub response_size : ℕ
response_size = 1031

abbrev pub req_list_size : ℕ
req_list_size = 258

abbrev pub res_list_size : ℕ
res_list_size = 63

-- `string_to_task` of a buffer of `size` bytes into which a read has put `bytes`.
unfoldable pub read_task : Bytes → ℕ → List ℕ → Prog Os Bytes
unfolding string_at write_bytes string_to_task
read_task junk size bytes = do
  s ← need (string_at (write_bytes junk 0 bytes) 0 size)
  need_task (string_to_task s junk)

-- The answer about a box, printed.
unfoldable pub print_answer : ℤ → Bytes → ℤ → Prog Os (Unit {0})
unfolding string_at
print_answer man_fd m (pos zero) = do print (codes "OK"); sys (call_close man_fd); pure tt
print_answer man_fd m v = do
  text ← need (field m error)
  print (codes "ERROR " ++ text)
  sys (call_close man_fd)
  pure tt

-- The rest of the case "create" from the write on.
unfoldable pub create_answer : Bytes → ℤ → ℤ → List ℕ → Prog Os (Unit {0})
unfolding read_task print_answer load_int
create_answer junk man_fd server_fd text = do
  w ← sys (call_write server_fd text request_buffer_size)
  exit_if (is_minus_one w.result) exit_failure
  a ← sys (call_read man_fd response_size)
  exit_if (is_minus_one a.result) exit_failure
  m ← read_task junk response_size a.bytes
  print_answer man_fd m (load_int m return_value)

-- The case "create".
unfoldable pub request_create : Bytes → ℤ → ℤ → List ℕ → List ℕ → Prog Os (Unit {0})
unfolding box_task request_text create_answer
request_create junk man_fd server_fd path name = do
  text ← need (request_text (box_task junk 3 path name))
  create_answer junk man_fd server_fd text

-- The case "remove": the text goes into `req_create`, but `req_remove` is written, which holds `junk`.
unfoldable pub request_remove : Bytes → ℤ → ℤ → List ℕ → List ℕ → Prog Os (Unit {0})
unfolding box_task request_text read_task print_answer load_int
request_remove junk man_fd server_fd path name = do
  need (request_text (box_task junk 5 path name))
  w ← sys (call_write server_fd (read_bytes junk 0 request_buffer_size) request_buffer_size)
  if is_minus_one w.result then (do sys (call_close server_fd); exit (pos 0)) else (do
    a ← sys (call_read man_fd response_size)
    exit_if (is_minus_one a.result) (pos 0)
    m ← read_task junk response_size a.bytes
    print_answer man_fd m (load_int m return_value)
    exit_if (is_zero (load_int m return_value)) (pos 0))

-- The case "list": `req_list` is written, which holds `junk`.
unfoldable pub request_list : Bytes → ℤ → ℤ → List ℕ → Prog Os (Unit {0})
unfolding strcpy read_task load_int
request_list junk man_fd server_fd path = do
  need (strcpy task_size junk pipe_path path)
  w ← sys (call_write server_fd (read_bytes junk 0 req_list_size) req_list_size)
  if is_minus_one w.result then (do sys (call_close server_fd); exit exit_failure) else (do
    a ← sys (call_read man_fd res_list_size)
    exit_if (is_minus_one a.result) exit_failure
    m ← read_task junk res_list_size a.bytes
    if is_zero (load_int m return_value)
        then pure tt
        else (do print (codes "NO BOXES FOUND"); sys (call_close man_fd); pure tt))

-- `start_server_connection`; the result is the server's pipe, a global variable.
unfoldable pub start_server_connection : Bytes → ℤ → List ℕ → List ℕ → List ℕ → List ℕ → Prog Os ℤ
unfolding open_server request_create request_remove request_list
start_server_connection junk man_fd server_pipe_path path request name = do
  server_fd ← open_server server_pipe_path path
  if str_eq request (codes "create")
      then request_create junk man_fd server_fd path name
      else if str_eq request (codes "remove")
      then request_remove junk man_fd server_fd path name
      else if str_eq request (codes "list")
      then request_list junk man_fd server_fd path
      else pure tt
  pure server_fd

-- `(size_t)num_boxes * PIPE_PATH_MAX_SIZE`
abbrev pub names_length : ℤ → ℕ
names_length (pos n) = n * 256 % 2 ^ 64
names_length (negsuc n) = (2 ^ 64 - (n + 1)) * 256 % 2 ^ 64

-- `sizeof(box_names)`
abbrev pub names_size : ℕ
names_size = 32768

-- The loop that prints the names from name `i` on.
unfoldable pub print_names : ℕ → ℕ → Bytes → Prog Os (Unit {0})
unfolding string_at
print_names zero i box_names os = done tt os
print_names (suc k) i box_names os =
    and_then (need (string_at box_names (i * 32) (names_size - i * 32)) os)
      (λ name os'. and_then (print name os') (λ _. print_names k (i + 1) box_names))

-- The end of `main` behind a failed read.
abbrev pub give_up : ℤ → ℤ → List ℕ → Prog Os ℤ
give_up man_fd server_fd path = do
  sys (call_close man_fd)
  sys (call_close server_fd)
  sys (call_unlink path)
  pure minus_one

-- The end of `main`.
abbrev pub finish : ℤ → ℤ → List ℕ → Prog Os ℤ
finish man_fd server_fd path = do
  sys (call_close man_fd)
  sys (call_close server_fd)
  sys (call_unlink path)
  pure (pos 0)

-- A read into `box_names`.
unfoldable pub into_names : Bytes → List ℕ → Option Bytes
unfolding write_bytes
into_names junk bytes =
    if leb (length bytes) names_size then some (write_bytes junk 0 bytes) else none

-- The part of `main` that reads the names of the boxes.
unfoldable pub list_names : Bytes → ℤ → ℤ → List ℕ → Prog Os ℤ
unfolding into_names write_bytes load_int print_names
list_names junk man_fd server_fd path = do
  a ← sys (call_read man_fd 4)
  if is_minus_one a.result then give_up man_fd server_fd path else do
    let num_boxes = load_int (write_bytes junk 0 a.bytes) 0
    r ← sys (call_read man_fd (names_length num_boxes))
    if is_minus_one r.result then give_up man_fd server_fd path else do
      box_names ← need (into_names junk r.bytes)
      print_names (rounds num_boxes) 0 box_names
      finish man_fd server_fd path

-- `main` from the choice of the request on.
unfoldable pub serve_request : Bytes → ℤ → List ℕ → List ℕ → List ℕ → List ℕ → Prog Os ℤ
unfolding start_server_connection list_names
serve_request junk man_fd server_pipe path request name =
    if str_eq request (codes "create")
      || str_eq request (codes "remove")
      || str_eq request (codes "list")
    then (do
      server_fd ← start_server_connection junk man_fd server_pipe path request name
      sys (call_unlink path)
      if str_eq request (codes "list")
          then list_names junk man_fd server_fd path
          else finish man_fd server_fd path)
    else (do sys (call_unlink path); pure minus_one)

-- `main` with four arguments; `server_fd` is 0 before it is opened.
unfoldable pub main : Bytes → List ℕ → List ℕ → List ℕ → List ℕ → Prog Os ℤ
unfolding serve_request
main junk server_pipe path request name = do
  m ← sys (call_mkfifo path)
  if is_minus_one m.result then (do sys (call_unlink path); pure minus_one) else (do
    man_fd ← sys (call_open path)
    if is_negative man_fd.result
        then give_up man_fd.result (pos 0) path
        else serve_request junk man_fd.result server_pipe path request name)
