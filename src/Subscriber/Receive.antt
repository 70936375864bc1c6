-- ===== src/Subscriber/Receive.antt =====
-- What a subscriber does with the messages that the broker sends.
use so_server_and_pipes.Base.{ℕ, suc, ◌≡◌, ap, ◌∙◌, true, some, List, [], ◌∷◌, ◌++◌, arith, ℤ}
use so_server_and_pipes.Fs.Memory.{Bytes, IsText, write_bytes}
use so_server_and_pipes.Fs.Memory.RoundTrip.{write_bytes-Holds, Holds-append}
use so_server_and_pipes.Os.{
  is_positive, Answer, Os, Ran, exited, and_then, answer_to, need, exit_failure, call_read,
}
use so_server_and_pipes.Broker.{task_to_str}
use so_server_and_pipes.Task.{string_at, print_byte, cut}
use so_server_and_pipes.Task.Scan.{no_task, need_task, string_to_task}
use so_server_and_pipes.Task.Text.{
  string_at-Holds, print_byte-IsPrinted, cut-IsPrinted, cut-IsText, length-take-le,
}
use so_server_and_pipes.Task.Exits.{string_to_task-IsPrinted}
use so_server_and_pipes.Subscriber.{
  session, receive, receive_string, sub_res_size, read_size, show_message,
}

-- What the broker prints for a message is no request.
task_to_str-no_task :
    (op : ℕ) (text : List ℕ) (junk : Bytes) → string_to_task (task_to_str op text) junk ≡ no_task
unfolding task_to_str
task_to_str-no_task op text junk =
    let (h, fits) = cut-IsPrinted (print_byte op) (b'|' ∷ text) (print_byte-IsPrinted op) in
    string_to_task-IsPrinted (cut (print_byte op ++ (b'|' ∷ text))) junk h fits

-- The string in the buffer after a read of a message.
read_message :
    (buffer : Bytes) (op : ℕ) (text pad : List ℕ)
    → IsText text
    → string_at (write_bytes buffer 0 ((task_to_str op text ++ 0 ∷ []) ++ pad)) 0 sub_res_size
      ≡ some (task_to_str op text)
unfolding task_to_str
read_message buffer op text pad is_text =
    let s = cut (print_byte op ++ (b'|' ∷ text)) in
    let m = write_bytes buffer 0 ((s ++ 0 ∷ []) ++ pad) in
    string_at-Holds m 0 s sub_res_size (cut-IsText op text is_text)
      (omega (arith, length-take-le 1023 (print_byte op ++ (b'|' ∷ text))))
      (Holds-append m 0 (s ++ 0 ∷ []) pad (write_bytes-Holds buffer 0 ((s ++ 0 ∷ []) ++ pad)))

receive-exits :
    (junk : Bytes) (sub_fd server_fd : ℤ) (path : List ℕ) (sub_res : Bytes) (s : List ℕ) (os : Os)
    → string_at sub_res 0 sub_res_size ≡ some s
    → string_to_task s junk ≡ no_task
    → receive junk sub_fd server_fd path sub_res true os ≡ exited exit_failure os
unfolding receive receive_string
receive-exits junk sub_fd server_fd path sub_res s os held bad =
    ap (λ o. and_then (need o os) (receive_string junk sub_fd server_fd path)) held
    ∙ ap (λ p. and_then (need_task p os) (show_message sub_fd server_fd path)) bad

-- The first message of the broker ends the subscriber that reads it, by exit(EXIT_FAILURE), before it
-- shows anything: the bytes read are what `task_to_str` prints for an opcode and a text, a NUL, and
-- whatever the broker's buffer held behind that.
pub session-task_to_str :
    (k : ℕ) (junk : Bytes) (sub_fd server_fd : ℤ) (path : List ℕ) (buffer : Bytes) (os : Os)
    (a : Answer) (rest : List Answer) (op : ℕ) (text pad : List ℕ)
    → os.answers ≡ a ∷ rest
    → is_positive a.result ≡ true
    → IsText text
    → a.bytes ≡ (task_to_str op text ++ 0 ∷ []) ++ pad
    → session (suc k) junk sub_fd server_fd path buffer os
      ≡ exited exit_failure
          (record { answers = rest; calls = os.calls ++ call_read sub_fd read_size ∷ [] })
unfolding session
session-task_to_str k junk sub_fd server_fd path buffer os a rest op text pad e good is_text sent =
    let os' : Os = record { answers = rest; calls = os.calls ++ call_read sub_fd read_size ∷ [] } in
    let after : Answer → Os → Ran Os (Unit {0}) = λ a' os₁.
      let sub_res = write_bytes buffer 0 a'.bytes in
      and_then (receive junk sub_fd server_fd path sub_res (is_positive a'.result) os₁)
        (λ _. session k junk sub_fd server_fd path sub_res) in
    ap (λ l. and_then (answer_to (call_read sub_fd read_size) l os.calls) after) e
    ∙ ap
        (λ v.
          and_then (receive junk sub_fd server_fd path (write_bytes buffer 0 a.bytes) v os')
            (λ _. session k junk sub_fd server_fd path (write_bytes buffer 0 a.bytes)))
        good
    ∙ ap
        (λ r. and_then r (λ _. session k junk sub_fd server_fd path (write_bytes buffer 0 a.bytes)))
        (receive-exits junk sub_fd server_fd path (write_bytes buffer 0 a.bytes)
          (task_to_str op text) os'
          (ap (λ l. string_at (write_bytes buffer 0 l) 0 sub_res_size) sent
            ∙ read_message buffer op text pad is_text)
          (task_to_str-no_task op text junk))
