-- ===== src/Broker/Serve/Accept.antt =====
-- What the main loop of the broker does with the bytes that it reads.
use so_server_and_pipes.Base.{
  ℕ, ◌≤◌, ◌<◌, ◌≡◌, ap, ◌∙◌, true, false, Option, some, List, [], ◌∷◌, ◌++◌, arith, leb, length, ℤ,
  minus_one, length-append,
}
use so_server_and_pipes.Base.{subst}
use so_server_and_pipes.Fs.Memory.{Bytes, IsText, write_bytes}
use so_server_and_pipes.Fs.Memory.RoundTrip.{write_bytes-Holds, Holds-append}
use so_server_and_pipes.Os.{and_then, is_negative, Answer, exited, exit_failure, call_read}
use so_server_and_pipes.Broker.{Broker, exit_if}
use so_server_and_pipes.Broker.Remove.{called, sys-eq}
use so_server_and_pipes.Broker.Serve.{
  accept, read_request, copy_request, store_request, queue_request, request_size,
}
use so_server_and_pipes.Task.Request.{request_text-task}
use so_server_and_pipes.Task.{request_text, task_size, task_to_string}
use so_server_and_pipes.Task.Scan.{no_task, string_to_task}
use so_server_and_pipes.Task.Text.{string_at-Holds, task_to_string-IsText}
use so_server_and_pipes.Task.Exits.{string_to_task-task_to_string}

-- The broker after the read of a round.
abbrev pub received : Broker → ℤ → List Answer → Broker
received b server_pipe rest = called b (call_read server_pipe task_size) rest

read_request-eq :
    (junk : Bytes) (server_pipe : ℤ) (task_op : ℕ) (b : Broker) (a : Answer) (rest : List Answer)
    → b.os.answers ≡ a ∷ rest
    → is_negative a.result ≡ false
    → read_request junk server_pipe task_op b
      ≡ copy_request junk task_op a.bytes (received b server_pipe rest)
unfolding read_request
read_request-eq junk server_pipe task_op b a rest e good =
    ap
      (λ r. and_then r (λ a' b'.
        and_then (exit_if (is_negative a'.result) minus_one b')
          (λ _. copy_request junk task_op a'.bytes)))
      (sys-eq b (call_read server_pipe task_size) a rest e)
    ∙ ap
        (λ v.
          and_then (exit_if v minus_one (received b server_pipe rest))
            (λ _. copy_request junk task_op a.bytes))
        good

copy_request-text :
    (junk : Bytes) (task_op : ℕ) (s pad : List ℕ) (b : Broker)
    → IsText s
    → length ((s ++ 0 ∷ []) ++ pad) ≤ request_size
    → copy_request junk task_op ((s ++ 0 ∷ []) ++ pad) b ≡ store_request junk task_op s b
unfolding copy_request
copy_request-text junk task_op s pad b text fits =
    let bytes = (s ++ 0 ∷ []) ++ pad in
    let short : leb (length bytes) request_size ≡ true = ground arith in
    let below : length s < request_size =
      omega (arith, fits, length-append (s ++ 0 ∷ []) pad, length-append s (0 ∷ [])) in
    let read = string_at-Holds (write_bytes junk 0 bytes) 0 s request_size text below (
      Holds-append (write_bytes junk 0 bytes) 0 (s ++ 0 ∷ []) pad
        (write_bytes-Holds junk 0 bytes)) in
    rw (short, read)

store_request-no_task :
    (junk : Bytes) (task_op : ℕ) (s : List ℕ) (b : Broker)
    → string_to_task s junk ≡ no_task
    → store_request junk task_op s b ≡ exited exit_failure b
unfolding store_request
store_request-no_task junk task_op s b e = rw e

-- The read of the text of a task as task_to_string prints it, a NUL, and other bytes, at most 291 in
-- all, ends the broker by exit(EXIT_FAILURE).
pub read_request-task_to_string :
    (junk : Bytes) (server_pipe : ℤ) (task_op : ℕ) (b : Broker) (a : Answer) (rest : List Answer)
    (m : Bytes) (s pad : List ℕ)
    → b.os.answers ≡ a ∷ rest
    → is_negative a.result ≡ false
    → task_to_string m ≡ some s
    → a.bytes ≡ (s ++ 0 ∷ []) ++ pad
    → length a.bytes ≤ request_size
    → read_request junk server_pipe task_op b ≡ exited exit_failure (received b server_pipe rest)
read_request-task_to_string junk server_pipe task_op b a rest m s pad e good printed sent fits =
    let b₁ = received b server_pipe rest in
    let text : IsText s = task_to_string-IsText m s printed in
    let fits' : length ((s ++ 0 ∷ []) ++ pad) ≤ request_size =
      subst (λ l. length l ≤ request_size) sent fits in
    read_request-eq junk server_pipe task_op b a rest e good
    ∙ ap (λ l. copy_request junk task_op l b₁) sent
    ∙ copy_request-text junk task_op s pad b₁ text fits'
    ∙ store_request-no_task junk task_op s b₁ (string_to_task-task_to_string m junk s printed)

-- So does a round of the main loop.
pub accept-task_to_string :
    (junk : Bytes) (server_pipe : ℤ) (pipe_name : List ℕ) (task_op : ℕ) (b : Broker) (a : Answer)
    (rest : List Answer) (m : Bytes) (s pad : List ℕ)
    → b.os.answers ≡ a ∷ rest
    → is_negative a.result ≡ false
    → task_to_string m ≡ some s
    → a.bytes ≡ (s ++ 0 ∷ []) ++ pad
    → length a.bytes ≤ request_size
    → accept junk server_pipe pipe_name task_op b
      ≡ exited exit_failure (received b server_pipe rest)
unfolding accept
accept-task_to_string junk server_pipe pipe_name task_op b a rest m s pad e good printed sent fits =
    ap (λ r. and_then r (λ _. queue_request server_pipe pipe_name task_op))
      (read_request-task_to_string junk server_pipe task_op b a rest m s pad e good printed sent
        fits)

-- So does the text that a client puts into its buffer for a request.
pub accept-request_text :
    (junk : Bytes) (server_pipe : ℤ) (pipe_name : List ℕ) (task_op : ℕ) (b : Broker) (a : Answer)
    (rest : List Answer) (o : Option Bytes) (s pad : List ℕ)
    → b.os.answers ≡ a ∷ rest
    → is_negative a.result ≡ false
    → request_text o ≡ some s
    → a.bytes ≡ (s ++ 0 ∷ []) ++ pad
    → length a.bytes ≤ request_size
    → accept junk server_pipe pipe_name task_op b
      ≡ exited exit_failure (received b server_pipe rest)
accept-request_text junk server_pipe pipe_name task_op b a rest o s pad e good text sent fits =
    let (m, printed) = request_text-task o s text in
    accept-task_to_string junk server_pipe pipe_name task_op b a rest m s pad e good printed sent
      fits
