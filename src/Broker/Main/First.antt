-- ===== src/Broker/Main/First.antt =====
-- main from its start to the first request that it reads.
use so_server_and_pipes.Base.{
  ℕ, suc, ◌≤◌, ◌≡◌, refl, ap, ◌∙◌, not, ◌&&◌, Bool, true, false, Option, some, List, [], ◌∷◌, ◌++◌,
  arith, length, ltb, if◌then◌else◌, ℤ, pos, minus_one, is_minus_one,
}
use so_server_and_pipes.Fs.Exec.{Run, ok}
use so_server_and_pipes.Fs.Memory.{Bytes}
use so_server_and_pipes.Fs.Init.{Geometry, root_made, tfs_init-eq}
use so_server_and_pipes.Fs.Setup.{all_allocated, tfs_init, tfs_default_params}
use so_server_and_pipes.Pcq.{PcQueue, pcq_create}
use so_server_and_pipes.Os.{
  stray, Prog, and_then, is_negative, Answer, done, exited, pure, exit_failure, call_signal,
  call_unlink, call_mkfifo, call_open, call_read,
}
use so_server_and_pipes.Broker.{Broker, on_fs}
use so_server_and_pipes.Broker.Remove.{called, sys-eq}
use so_server_and_pipes.Broker.Serve.{init_server, open_pipe, request_size, read_request}
use so_server_and_pipes.Broker.Serve.Accept.{received, read_request-task_to_string}
use so_server_and_pipes.Broker.Main.{
  Environment, initialize_threads, create_queue, started, start_server, main_round, main_loop,
  main_with, main,
}
use so_server_and_pipes.Task.{task_to_string, task_size}
use mathlib.Core.List.{append_assoc}

-- The calls of malloc succeed.
pub record IsRoomy (env : Environment) : Type 0 where
  pub tables : all_allocated env.mallocs ≡ true
  pub first_queue : env.first_queue ≡ true
  pub builder : env.builder ≡ true
  pub task_queue : (q : PcQueue) × (env.task_queue ≡ some q)
  pub pcq_buffer : (w : ℕ → ℕ) × (env.pcq_buffer ≡ some w)

-- The broker after the file system is made.
abbrev pub with_root : Environment → Broker → Broker
with_root env b = record b { fs = root_made env.mallocs tfs_default_params b.fs }

default_params-Geometry : Geometry tfs_default_params
default_params-Geometry = record {
  few_inodes = omega arith;
  few_blocks = omega arith;
  few_handles = omega arith;
  small_data = omega arith;
  small_block = omega arith;
}

init_server-eq :
    (env : Environment) (b : Broker)
    → IsRoomy env
    → b.fs.allocated ≡ false
    → init_server env.mallocs env.first_queue b ≡ done (pos 0) (with_root env b)
unfolding init_server tfs_init
init_server-eq env b h fresh =
    let made : tfs_init env.mallocs (some tfs_default_params) b.fs
        ≡ ok (pos 0) (root_made env.mallocs tfs_default_params b.fs) =
      tfs_init-eq env.mallocs tfs_default_params b.fs fresh h.tables (omega arith) (omega arith)
        default_params-Geometry in
    ap
      (λ (r : Run ℤ). and_then (on_fs b r) (λ (x : ℤ).
        if is_minus_one x
        then pure minus_one
        else pure (if env.first_queue then pos 0 else minus_one)))
      made
    ∙ ap (λ (z : Bool). done (if z then pos 0 else minus_one) (with_root env b)) h.first_queue

-- The broker with other answers to come.
abbrev answering : Broker → List Answer → Broker
answering b l = record b { os = record { answers = l; calls = b.os.calls } }

-- The broker after the server's pipe is made and opened.
abbrev pub with_pipe : Broker → List ℕ → List Answer → Broker
with_pipe b pipe_name rest = record b {
  os = record {
    answers = rest;
    calls =
        ((b.os.calls ++ call_unlink pipe_name ∷ []) ++ call_mkfifo pipe_name ∷ [])
        ++ call_open pipe_name ∷ [];
  };
}

open_pipe-eq :
    (b : Broker) (pipe_name : List ℕ) (u f o : Answer) (rest : List Answer)
    → b.os.answers ≡ u ∷ (f ∷ (o ∷ rest))
    → (is_minus_one u.result && not u.enoent) ≡ false
    → is_minus_one f.result ≡ false
    → is_minus_one o.result ≡ false
    → open_pipe pipe_name b ≡ done o.result (with_pipe b pipe_name rest)
unfolding open_pipe
open_pipe-eq b pipe_name u f o rest e hu hf ho =
    ap (λ (l : List Answer). open_pipe pipe_name (answering b l)) e ∙ rw (hu, hf, ho)

create_queue-eq :
    (env : Environment) (b : Broker)
    → IsRoomy env
    → create_queue env.task_queue env.pcq_buffer b ≡ done tt b
unfolding create_queue pcq_create
create_queue-eq env b h =
    let (q, e) = h.task_queue in
    let (w, e') = h.pcq_buffer in
    ap (λ (o : Option PcQueue). create_queue o env.pcq_buffer b) e
    ∙ ap (λ (o : Option (ℕ → ℕ)). create_queue (some q) o b) e'

initialize_threads-eq :
    (env : Environment) (n : ℕ) (b : Broker)
    → IsRoomy env
    → initialize_threads env.builder env.pthread_create n b
      ≡ done (started env.pthread_create n 0) b
unfolding initialize_threads
initialize_threads-eq env n b h =
    ap (λ (z : Bool). (if not z && ltb 0 n then stray else pure (started env.pthread_create n 0)) b)
      h.builder

-- `main` up to its loop gives the server's pipe.
start_server-eq :
    (env : Environment) (b : Broker) (pipe_name sessions : List ℕ) (u f o : Answer)
    (rest : List Answer)
    → IsRoomy env
    → b.os.answers ≡ u ∷ (f ∷ (o ∷ rest))
    → (is_minus_one u.result && not u.enoent) ≡ false
    → is_minus_one f.result ≡ false
    → is_minus_one o.result ≡ false
    → start_server env pipe_name sessions b ≡ done o.result (with_pipe b pipe_name rest)
unfolding start_server
start_server-eq env b pipe_name sessions u f o rest h e hu hf ho = rw (
  create_queue-eq env b h,
  open_pipe-eq b pipe_name u f o rest e hu hf ho,
  initialize_threads-eq env _ (with_pipe b pipe_name rest) h,
)

main_loop-exited :
    (enqueue : ℕ → Prog Broker (Unit {0})) (junk : Bytes) (server_pipe : ℤ) (pipe_name : List ℕ)
    (task_op fuel : ℕ) (b b' : Broker) (code : ℤ)
    → read_request junk server_pipe task_op b ≡ exited code b'
    → main_loop enqueue junk server_pipe pipe_name task_op (suc fuel) b ≡ exited code b'
unfolding main_loop main_round
main_loop-exited enqueue junk server_pipe pipe_name task_op fuel b b' code e = rw e

-- The broker when `main` has read the first request.
abbrev pub first_read :
    Environment → Broker → List ℕ → ℤ → List Answer → List Answer → List Answer → Broker
first_read env b pipe_name server_pipe rest₁ rest₂ rest₃ =
    received (with_pipe (with_root env (called b call_signal rest₁)) pipe_name rest₂) server_pipe
      rest₃

-- `main` of the broker, with at least two arguments, where every malloc succeeds and the server's pipe
-- is made and opened: if the first that it reads is the text of a task as task_to_string prints it, a
-- NUL, and other bytes, at most 291 in all, it ends by exit(EXIT_FAILURE). It has then made the calls
-- signal, unlink, mkfifo, open and read, and given no request to a thread.
pub main-task_to_string :
    (env : Environment) (enqueue : ℕ → Prog Broker (Unit {0})) (junk : Bytes) (task_op fuel : ℕ)
    (pipe_name sessions : List ℕ) (more : List (List ℕ)) (b : Broker) (z u f o a : Answer)
    (rest : List Answer) (m : Bytes) (s pad : List ℕ)
    → IsRoomy env
    → b.fs.allocated ≡ false
    → b.os.answers ≡ z ∷ (u ∷ (f ∷ (o ∷ (a ∷ rest))))
    → (is_minus_one u.result && not u.enoent) ≡ false
    → is_minus_one f.result ≡ false
    → is_minus_one o.result ≡ false
    → is_negative a.result ≡ false
    → task_to_string m ≡ some s
    → a.bytes ≡ (s ++ 0 ∷ []) ++ pad
    → length a.bytes ≤ request_size
    → (b' : Broker) × (main env enqueue junk task_op (suc fuel) (pipe_name ∷ (sessions ∷ more)) b
        ≡ exited exit_failure b')
      × (b'.os.answers ≡ rest)
      × (b'.os.calls
          ≡ b.os.calls
            ++ (call_signal
                ∷ (call_unlink pipe_name
                    ∷ (call_mkfifo pipe_name
                        ∷ (call_open pipe_name ∷ (call_read o.result task_size ∷ []))))))
unfolding main main_with
main-task_to_string env enqueue junk task_op fuel pipe_name sessions more b z u f o a rest m s pad h
      fresh e hu hf ho ha printed sent fits =
    let rest₁ = u ∷ (f ∷ (o ∷ (a ∷ rest))) in
    let b₁ = called b call_signal rest₁ in
    let b₂ = with_pipe (with_root env b₁) pipe_name (a ∷ rest) in
    (
      received b₂ o.result rest,
      rw (
        sys-eq b call_signal z rest₁ e,
        init_server-eq env b₁ h fresh,
        start_server-eq env (with_root env b₁) pipe_name sessions u f o (a ∷ rest) h refl hu hf ho,
        main_loop-exited enqueue junk o.result pipe_name task_op fuel b₂ (received b₂ o.result rest)
            exit_failure
            (read_request-task_to_string junk o.result task_op b₂ a rest m s pad refl ha printed
              sent fits),
      ),
      refl,
      simp append_assoc,
    )
