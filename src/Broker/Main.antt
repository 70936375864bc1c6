-- ===== src/Broker/Main.antt =====
-- mbroker/mbroker.c: main and initialize_threads.
pub mod First
use so_server_and_pipes.Base.{
  ℕ, zero, suc, ◌+◌, ◌-◌, ◌*◌, ◌/◌, ◌%◌, ◌^◌, ◌≤◌, ◌<◌, ◌≡◌, refl, sym, ap, ◌∙◌, ◌≢◌, ◌⊎◌, inl, inr,
  Bool, true, false, not, ◌&&◌, ◌||◌, Option, none, some, List, [], ◌∷◌, ◌++◌, arith, ltb, leb,
  ◌==◌, if◌then◌else◌, length, get_or, take, replicate, update, ℤ, pos, negsuc, minus_one,
  is_minus_one, int_of_size, ssize_of_size, find_below, find_from, Finds, IsFirst, find_below-Finds,
  find_from-Finds, find_from-first, find_from-none, Bool-cases, Option-cases, tests, ==→eq, ==→ne,
  eq→==, ne→==, ltb→lt, ltb→le, lt→ltb, le→ltb, length-append, length-replicate, length-take,
  take-length, get_or-append_left, get_or-append_right, get_or-replicate, IsInt, signed32,
  unsigned32, signed32-unsigned32, int_of_size-pos, ssize_of_size-pos, update_self, update-ne, min,
  codes,
}
use so_server_and_pipes.Fs.Setup.{is_zero}
use so_server_and_pipes.Fs.Memory.{Bytes}
use so_server_and_pipes.Fs.Setup.{Mallocs}
use so_server_and_pipes.Pcq.{PcQueue, pcq_create}
use so_server_and_pipes.Os.{
  and_then, Prog, waiting, pure, exit, stray, exit_failure, sys, ◌>>=◌, ◌>>◌, call_signal,
}
use so_server_and_pipes.Broker.{Broker, io, get, exit_if}
use so_server_and_pipes.Broker.Serve.{
  init_server, open_pipe, read_request, catch_interrupt, is_queued,
}

-- What `main` gets from the functions of other libraries: what malloc returns to `init_server`, for
-- `builder`, for the queue and for its buffer; atoi; and what pthread_create returns for each thread.
pub record Environment : Type 0 where
  pub mallocs : Mallocs
  pub first_queue : Bool
  pub builder : Bool
  pub task_queue : Option PcQueue
  pub pcq_buffer : Option (ℕ → ℕ)
  pub atoi : List ℕ → ℤ
  pub pthread_create : ℕ → ℤ

-- MAX_QUEUE_SIZE
abbrev pub max_queue_size : ℕ
max_queue_size = 1024

-- The loop of `initialize_threads`, `k` rounds from thread `i` on: the threads that run. A thread that
-- cannot be created is left out, with a message.
abbrev pub started : (ℕ → ℤ) → ℕ → ℕ → List ℕ
started create zero i = []
started create (suc k) i =
    let rest = started create k (i + 1) in if is_zero (create i) then i ∷ rest else rest

-- `initialize_threads`, which stores the threads in the tasks of `builder`.
unfoldable pub initialize_threads : Bool → (ℕ → ℤ) → ℕ → Prog Broker (List ℕ)
initialize_threads builder create number_max_sessions =
    if not builder && ltb 0 number_max_sessions
    then stray
    else pure (started create number_max_sessions 0)

-- The call of `pcq_create` in `main`, on memory that malloc has returned.
unfoldable pub create_queue : Option PcQueue → Option (ℕ → ℕ) → Prog Broker (Unit {0})
unfolding pcq_create
create_queue none buffer = stray
create_queue (some queue) buffer =
    exit_if (is_minus_one (pcq_create buffer max_queue_size queue).0) minus_one

-- `main` from the arguments on, up to its loop: the server's pipe.
unfoldable pub start_server : Environment → List ℕ → List ℕ → Prog Broker ℤ
unfolding create_queue open_pipe initialize_threads
start_server env pipe_name sessions = do
  create_queue env.task_queue env.pcq_buffer
  server_pipe ← open_pipe pipe_name
  initialize_threads env.builder env.pthread_create (unsigned32 (env.atoi sessions))
  pure server_pipe

-- The switch in the loop; `enqueue` is what the call of pcq_enqueue does, while other threads run.
unfoldable pub enqueue_request : (ℕ → Prog Broker (Unit {0})) → ℕ → Prog Broker (Unit {0})
enqueue_request enqueue task_op = do
  b ← get
  if is_queued (b.tasks task_op).opcode then enqueue task_op else pure tt

-- A round of the loop.
unfoldable pub main_round :
    (ℕ → Prog Broker (Unit {0})) → Bytes → ℤ → List ℕ → ℕ → Prog Broker (Unit {0})
unfolding read_request enqueue_request catch_interrupt
main_round enqueue junk server_pipe pipe_name task_op = do
  read_request junk server_pipe task_op
  enqueue_request enqueue task_op
  catch_interrupt server_pipe pipe_name

-- The loop, on fuel.
unfoldable pub main_loop :
    (ℕ → Prog Broker (Unit {0})) → Bytes → ℤ → List ℕ → ℕ → ℕ → Prog Broker (Unit {0})
unfolding main_round
main_loop enqueue junk server_pipe pipe_name task_op zero b = waiting b
main_loop enqueue junk server_pipe pipe_name task_op (suc fuel) b =
    and_then (main_round enqueue junk server_pipe pipe_name task_op b)
      (λ _. main_loop enqueue junk server_pipe pipe_name task_op fuel)

-- `main` behind `init_server`, with the arguments behind the program's name.
unfoldable pub main_with :
    Environment
    → (ℕ → Prog Broker (Unit {0}))
    → Bytes
    → ℕ
    → ℕ
    → List (List ℕ)
    → Prog Broker (Unit {0})
unfolding start_server main_loop
main_with env enqueue junk task_op fuel [] = exit exit_failure
main_with env enqueue junk task_op fuel (pipe_name ∷ []) = exit exit_failure
main_with env enqueue junk task_op fuel (pipe_name ∷ (sessions ∷ more)) = do
  server_pipe ← start_server env pipe_name sessions
  main_loop enqueue junk server_pipe pipe_name task_op fuel

-- `main`
unfoldable pub main :
    Environment
    → (ℕ → Prog Broker (Unit {0}))
    → Bytes
    → ℕ
    → ℕ
    → List (List ℕ)
    → Prog Broker (Unit {0})
unfolding init_server main_with
main env enqueue junk task_op fuel args = do
  io (sys call_signal)
  r ← init_server env.mallocs env.first_queue
  exit_if (is_minus_one r) exit_failure
  main_with env enqueue junk task_op fuel args
