-- ===== src/Publisher/Login.antt =====
-- The login request of a publisher, and what the broker does with it.
use so_server_and_pipes.Base.{
  ℕ, ◌+◌, ◌-◌, ◌≤◌, ◌≡◌, refl, ap, ◌∙◌, inl, inr, true, false, some, List, [], ◌∷◌, ◌++◌, arith,
  length, get_or, ℤ, length-append, get_or-append_right,
}
use so_server_and_pipes.Fs.Memory.{
  Bytes, IsText, write_bytes, write_bytes-inside, write_bytes-outside,
}
use so_server_and_pipes.Fs.Memory.RoundTrip.{Holds, write_bytes-Holds}
use so_server_and_pipes.Os.{
  Answer, Os, sys, and_then-waiting, sys-waiting, exited, waiting, need, exit_failure, is_negative,
  call_write, and_then,
}
use so_server_and_pipes.Broker.{Broker}
use so_server_and_pipes.Broker.Serve.{accept, request_size}
use so_server_and_pipes.Broker.Serve.Accept.{accept-request_text, received}
use so_server_and_pipes.Task.{
  request_buffer_size, request_text, digits, print_byte, opcode, pipe_path, box_name, task_size,
}
use so_server_and_pipes.Task.Request.{strcpy-eq, request_of, request_text-eq}
use so_server_and_pipes.Publisher.{
  are_short, with_name, login_task, login_text, write_login, start_server_connection,
}

-- The task after the three writes.
abbrev filled : Bytes → List ℕ → List ℕ → Bytes
filled junk path name =
    write_bytes (write_bytes (write_bytes junk opcode (1 ∷ [])) pipe_path (path ++ 0 ∷ [])) box_name
      (name ++ 0 ∷ [])

module _ (junk : Bytes) (path name : List ℕ) (path_text : IsText path) (name_text : IsText name)
    (path_fits : length path ≤ 256) (name_fits : length name ≤ 32) where
  login_task-eq : login_task junk path name ≡ some (filled junk path name)
  unfolding login_task
  login_task-eq =
      let first =
        strcpy-eq task_size (write_bytes junk opcode (1 ∷ [])) pipe_path path
          (omega (arith, path_fits)) in
      let second =
        strcpy-eq task_size
          (write_bytes (write_bytes junk opcode (1 ∷ [])) pipe_path (path ++ 0 ∷ [])) box_name name
          (omega (arith, name_fits)) in
      ap (with_name name) first ∙ second

  path-Holds : Holds (filled junk path name) pipe_path (path ++ 0 ∷ [])
  path-Holds i lt =
      write_bytes-outside _ box_name (name ++ 0 ∷ []) (pipe_path + i)
        (inl (omega (arith, lt, path_fits, length-append path (0 ∷ []))))
      ∙ write_bytes-Holds _ pipe_path (path ++ 0 ∷ []) i lt

  -- What the task is printed as, by the byte that its opcode is.
  login_text-opcode :
      (digit : ℕ)
      → print_byte (filled junk path name opcode) ≡ digit ∷ []
      → length path + length name ≤ 287
      → login_text junk path name ≡ some (request_of digit path name)
  unfolding login_text
  login_text-opcode digit op short =
      ap request_text login_task-eq
      ∙ request_text-eq (filled junk path name) digit path name op path_text name_text path-Holds
          (write_bytes-Holds
            (write_bytes (write_bytes junk opcode (1 ∷ [])) pipe_path (path ++ 0 ∷ [])) box_name
            (name ++ 0 ∷ []))
          short

  filled-opcode : length path ≤ 255 → filled junk path name opcode ≡ 1
  filled-opcode short =
      write_bytes-outside _ box_name (name ++ 0 ∷ []) opcode (inl (omega arith))
      ∙ write_bytes-outside _ pipe_path (path ++ 0 ∷ []) opcode
          (inr (omega (arith, short, length-append path (0 ∷ []))))
      ∙ write_bytes-inside junk opcode (1 ∷ []) 0 (omega arith)

zero_printed : print_byte 0 ≡ b'0' ∷ []
unfolding print_byte digits
zero_printed = refl

one_printed : print_byte 1 ≡ b'1' ∷ []
unfolding print_byte digits
one_printed = refl

login_text-request :
    (junk : Bytes) (path name : List ℕ)
    → request_text (login_task junk path name) ≡ login_text junk path name
unfolding login_text
login_text-request junk path name = refl

write_login-waiting :
    (junk : Bytes) (fd : ℤ) (path text : List ℕ) (os : Os)
    → os.answers ≡ []
    → write_login junk fd path text os
      ≡ waiting
          (record { answers = []; calls = os.calls ++ call_write fd text request_buffer_size ∷ [] })
unfolding write_login
write_login-waiting junk fd path text os no_answer =
    and_then-waiting (sys (call_write fd text request_buffer_size) os) _ _
      (sys-waiting (call_write fd text request_buffer_size) os no_answer)

-- A path of 256 bytes passes the check of `main`, but its NUL falls on the opcode: the request of a
-- login with it, and with a name of at most 31 bytes, has the opcode 0.
pub login_text-long_path :
    (junk : Bytes) (path name : List ℕ)
    → IsText path
    → IsText name
    → length path ≡ 256
    → length name ≤ 31
    → (are_short path name ≡ true) × (login_text junk path name ≡ some (request_of b'0' path name))
login_text-long_path junk path name path_text name_text long name_short =
    let m = write_bytes junk opcode (1 ∷ []) in
    let past : length path - length path ≡ 0 = omega arith in
    let at : opcode ≡ pipe_path + length path = omega (arith, long) in
    let nul : write_bytes m pipe_path (path ++ 0 ∷ []) opcode ≡ 0 =
      ap (λ z. write_bytes m pipe_path (path ++ 0 ∷ []) z) at
      ∙ write_bytes-inside m pipe_path (path ++ 0 ∷ []) (length path)
          (omega (arith, length-append path (0 ∷ [])))
      ∙ get_or-append_right path (0 ∷ []) (length path) 0 (omega arith)
      ∙ ap (λ z. get_or (0 ∷ []) z 0) past in
    let op =
      write_bytes-outside (write_bytes m pipe_path (path ++ 0 ∷ [])) box_name (name ++ 0 ∷ [])
        opcode (inl (omega arith))
      ∙ nul in
    (
      ground arith,
      login_text-opcode junk path name path_text name_text (omega (arith, long))
          (omega (arith, name_short)) b'0' (ap print_byte op ∙ zero_printed)
          (omega (arith, long, name_short)),
    )

-- A login of a publisher whose path has at most 255 bytes and whose box name has at most 32 writes
-- the text `1|path|name` to the broker's pipe, and a broker that reads it ends by exit(EXIT_FAILURE).
pub login_ends_broker :
    (junk : Bytes) (fd : ℤ) (path name : List ℕ) (os : Os) (junk' : Bytes) (server_pipe : ℤ)
    (pipe_name : List ℕ) (task_op : ℕ) (b : Broker) (a : Answer) (rest : List Answer) (pad : List ℕ)
    → IsText path
    → IsText name
    → length path ≤ 255
    → length name ≤ 32
    → os.answers ≡ []
    → b.os.answers ≡ a ∷ rest
    → is_negative a.result ≡ false
    → a.bytes ≡ (request_of b'1' path name ++ 0 ∷ []) ++ pad
    → length a.bytes ≤ request_size
    → (start_server_connection junk fd path name os
        ≡ waiting (record {
          answers = [];
          calls = os.calls ++ call_write fd (request_of b'1' path name) request_buffer_size ∷ [];
        }))
      × (accept junk' server_pipe pipe_name task_op b
          ≡ exited exit_failure (received b server_pipe rest))
unfolding start_server_connection
login_ends_broker junk fd path name os junk' server_pipe pipe_name task_op b a rest pad path_text
      name_text path_short name_short no_answer e good sent fits =
    let wide : length path ≤ 256 = omega (arith, path_short) in
    let op = filled-opcode junk path name path_text name_text wide name_short path_short in
    let text =
      login_text-opcode junk path name path_text name_text wide name_short b'1'
        (ap print_byte op ∙ one_printed) (omega (arith, path_short, name_short)) in
    (
      ap (λ o. and_then (need o os) (write_login junk fd path)) text
          ∙ write_login-waiting junk fd path (request_of b'1' path name) os no_answer,
      accept-request_text junk' server_pipe pipe_name task_op b a rest (login_task junk path name)
          (request_of b'1' path name) pad e good (login_text-request junk path name ∙ text) sent
          fits,
    )
