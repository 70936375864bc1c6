-- ===== src/Manager/Requests.antt =====
-- The request to create a box, and what the broker does with it.
use so_server_and_pipes.Base.{
  ℕ, suc, ◌+◌, ◌-◌, ◌≤◌, ◌<◌, ◌≡◌, refl, sym, ap, ◌∙◌, inl, false, some, List, [], ◌∷◌, ◌++◌, arith,
  length, replicate, ℤ, length-append,
}
use mathlib.Core.List.{append_assoc}
use so_server_and_pipes.Base.{subst}
use so_server_and_pipes.Fs.Memory.{
  Bytes, IsText, write_bytes, write_bytes-inside, write_bytes-outside, strncpy_bytes,
}
use so_server_and_pipes.Fs.Memory.RoundTrip.{Holds, Holds-append, write_bytes-Holds}
use so_server_and_pipes.Os.{
  Answer, Os, sys, and_then-waiting, sys-waiting, exited, waiting, need, exit_failure, is_negative,
  call_write, and_then,
}
use so_server_and_pipes.Broker.{Broker}
use so_server_and_pipes.Broker.Serve.{accept, request_size}
use so_server_and_pipes.Broker.Serve.Accept.{accept-request_text, received}
use so_server_and_pipes.Task.{
  request_buffer_size, request_text, digits, print_byte, opcode, pipe_path, box_name, task_size,
  max_box_name,
}
use so_server_and_pipes.Task.Request.{take_all, strcpy-eq, request_of, request_text-eq}
use so_server_and_pipes.Manager.{with_box_name, box_task, create_answer, request_create}

-- The task after the three writes.
abbrev filled : Bytes → ℕ → List ℕ → List ℕ → Bytes
filled junk op path name =
    write_bytes (write_bytes (write_bytes junk pipe_path (path ++ 0 ∷ [])) opcode (op ∷ []))
      box_name (strncpy_bytes name max_box_name)

-- A name that is shorter than the field is followed by a NUL.
strncpy_bytes-short :
    (name : List ℕ)
    → length name ≤ 31
    → strncpy_bytes name max_box_name ≡ (name ++ 0 ∷ []) ++ replicate (31 - length name) 0
strncpy_bytes-short name h =
    let left : 32 - length name ≡ suc (31 - length name) = omega (arith, h) in
    ap (λ l. l ++ replicate (32 - length name) 0) (take_all 32 name (omega (arith, h)))
    ∙ ap (λ k. name ++ replicate k 0) left
    ∙ sym (append_assoc name (0 ∷ []) (replicate (31 - length name) 0))

module _ (junk : Bytes) (op digit : ℕ) (path name : List ℕ) (path_text : IsText path)
    (name_text : IsText name) (path_fits : length path ≤ 255) (name_fits : length name ≤ 31)
    (printed : print_byte op ≡ digit ∷ []) where
  box_task-eq : box_task junk op path name ≡ some (filled junk op path name)
  unfolding box_task
  box_task-eq =
      ap (with_box_name op name)
        (strcpy-eq task_size junk pipe_path path (omega (arith, path_fits)))

  path-Holds : Holds (filled junk op path name) pipe_path (path ++ 0 ∷ [])
  path-Holds i lt =
      let inside : pipe_path + i < opcode =
        omega (arith, lt, path_fits, length-append path (0 ∷ [])) in
      write_bytes-outside _ box_name (strncpy_bytes name max_box_name) (pipe_path + i)
        (inl (omega (arith, inside)))
      ∙ write_bytes-outside _ opcode (op ∷ []) (pipe_path + i) (inl inside)
      ∙ write_bytes-Holds junk pipe_path (path ++ 0 ∷ []) i lt

  name-Holds : Holds (filled junk op path name) box_name (name ++ 0 ∷ [])
  name-Holds =
      Holds-append (filled junk op path name) box_name (name ++ 0 ∷ [])
        (replicate (31 - length name) 0)
        (subst (Holds (filled junk op path name) box_name) (strncpy_bytes-short name name_fits)
          (write_bytes-Holds _ box_name (strncpy_bytes name max_box_name)))

  pub box_request-eq : request_text (box_task junk op path name) ≡ some (request_of digit path name)
  box_request-eq =
      let byte : filled junk op path name opcode ≡ op =
        write_bytes-outside _ box_name (strncpy_bytes name max_box_name) opcode (inl (omega arith))
        ∙ write_bytes-inside _ opcode (op ∷ []) 0 (omega arith) in
      ap request_text box_task-eq
      ∙ request_text-eq (filled junk op path name) digit path name (ap print_byte byte ∙ printed)
          path_text name_text path-Holds name-Holds (omega (arith, path_fits, name_fits))

three_printed : print_byte 3 ≡ b'3' ∷ []
unfolding print_byte digits
three_printed = refl

create_answer-waiting :
    (junk : Bytes) (man_fd server_fd : ℤ) (text : List ℕ) (os : Os)
    → os.answers ≡ []
    → create_answer junk man_fd server_fd text os
      ≡ waiting (record {
        answers = [];
        calls = os.calls ++ call_write server_fd text request_buffer_size ∷ [];
      })
unfolding create_answer
create_answer-waiting junk man_fd server_fd text os no_answer =
    and_then-waiting (sys (call_write server_fd text request_buffer_size) os) _ _
      (sys-waiting (call_write server_fd text request_buffer_size) os no_answer)

-- A request of the manager to create a box, with a path of at most 255 bytes and a name of at most
-- 31, writes the text `3|path|name` to the broker's pipe, and a broker that reads it ends by
-- exit(EXIT_FAILURE).
pub create_ends_broker :
    (junk : Bytes) (man_fd server_fd : ℤ) (path name : List ℕ) (os : Os) (junk' : Bytes)
    (server_pipe : ℤ) (pipe_name : List ℕ) (task_op : ℕ) (b : Broker) (a : Answer)
    (rest : List Answer) (pad : List ℕ)
    → IsText path
    → IsText name
    → length path ≤ 255
    → length name ≤ 31
    → os.answers ≡ []
    → b.os.answers ≡ a ∷ rest
    → is_negative a.result ≡ false
    → a.bytes ≡ (request_of b'3' path name ++ 0 ∷ []) ++ pad
    → length a.bytes ≤ request_size
    → (request_create junk man_fd server_fd path name os
        ≡ waiting (record {
          answers = [];
          calls =
              os.calls ++ call_write server_fd (request_of b'3' path name) request_buffer_size ∷ [];
        }))
      × (accept junk' server_pipe pipe_name task_op b
          ≡ exited exit_failure (received b server_pipe rest))
unfolding request_create
create_ends_broker junk man_fd server_fd path name os junk' server_pipe pipe_name task_op b a rest
      pad path_text name_text path_short name_short no_answer e good sent fits =
    let text =
      box_request-eq junk 3 b'3' path name path_text name_text path_short name_short
        three_printed in
    (
      ap (λ o. and_then (need o os) (create_answer junk man_fd server_fd)) text
          ∙ create_answer-waiting junk man_fd server_fd (request_of b'3' path name) os no_answer,
      accept-request_text junk' server_pipe pipe_name task_op b a rest (box_task junk 3 path name)
          (request_of b'3' path name) pad e good text sent fits,
    )
