-- ===== src/Manager/Tests.antt =====
-- A manager with the pipe "/p" that makes the box "/b".
use so_server_and_pipes.Base.{ℕ, ◌≡◌, refl, List, [], ◌∷◌, ◌++◌, arith, pos, codes}
use so_server_and_pipes.Fs.Memory.{IsText}
use so_server_and_pipes.Os.{exited, waiting, exit_failure, call_write}
use so_server_and_pipes.Broker.Serve.{accept}
use so_server_and_pipes.Broker.Serve.Accept.{received}
use so_server_and_pipes.Broker.Samples.{reads, idle, waits_for}
use so_server_and_pipes.Manager.{request_create}
use so_server_and_pipes.Manager.Requests.{create_ends_broker}

abbrev create_bytes : List ℕ
create_bytes = (codes "3|/p|/b" ++ 0 ∷ []) ++ (9 ∷ [])

path_IsText : IsText (codes "/p")
path_IsText = (omega arith, (omega arith, tt))

name_IsText : IsText (codes "/b")
name_IsText = (omega arith, (omega arith, tt))

create_ends_broker_example :
    (request_create (λ _. 1) (pos 5) (pos 4) (codes "/p") (codes "/b") idle
      ≡ waiting (record { answers = []; calls = call_write (pos 4) (codes "3|/p|/b") 291 ∷ [] }))
    × (accept (λ _. 2) (pos 3) (codes "/s") 0 (waits_for create_bytes)
        ≡ exited exit_failure (received (waits_for create_bytes) (pos 3) []))
create_ends_broker_example =
    create_ends_broker (λ _. 1) (pos 5) (pos 4) (codes "/p") (codes "/b") idle (λ _. 2) (pos 3)
      (codes "/s") 0 (waits_for create_bytes) (reads create_bytes) [] (9 ∷ []) path_IsText
      name_IsText (omega arith) (omega arith) refl refl refl refl (omega arith)
