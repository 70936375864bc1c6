-- ===== src/Publisher/Tests.antt =====
-- A publisher with the pipe "/p" and the box "/b", and one with a path of 256 bytes.
use so_server_and_pipes.Base.{
  ℕ, zero, suc, ◌≡◌, refl, true, some, List, [], ◌∷◌, ◌++◌, arith, replicate, pos, length-replicate,
  codes,
}
use so_server_and_pipes.Fs.Memory.{IsText}
use so_server_and_pipes.Os.{exited, waiting, exit_failure, call_write}
use so_server_and_pipes.Broker.Serve.{accept}
use so_server_and_pipes.Broker.Serve.Accept.{received}
use so_server_and_pipes.Broker.Samples.{reads, idle, waits_for}
use so_server_and_pipes.Task.Request.{request_of}
use so_server_and_pipes.Publisher.{start_server_connection, login_text, are_short}
use so_server_and_pipes.Publisher.Login.{login_ends_broker, login_text-long_path}

abbrev login_bytes : List ℕ
login_bytes = (codes "1|/p|/b" ++ 0 ∷ []) ++ (9 ∷ [])

path_IsText : IsText (codes "/p")
path_IsText = (omega arith, (omega arith, tt))

name_IsText : IsText (codes "/b")
name_IsText = (omega arith, (omega arith, tt))

login_ends_broker_example :
    (start_server_connection (λ _. 1) (pos 4) (codes "/p") (codes "/b") idle
      ≡ waiting (record { answers = []; calls = call_write (pos 4) (codes "1|/p|/b") 291 ∷ [] }))
    × (accept (λ _. 2) (pos 3) (codes "/s") 0 (waits_for login_bytes)
        ≡ exited exit_failure (received (waits_for login_bytes) (pos 3) []))
login_ends_broker_example =
    login_ends_broker (λ _. 1) (pos 4) (codes "/p") (codes "/b") idle (λ _. 2) (pos 3) (codes "/s")
      0 (waits_for login_bytes) (reads login_bytes) [] (9 ∷ []) path_IsText name_IsText
      (omega arith) (omega arith) refl refl refl refl (omega arith)

replicate-IsText : (n : ℕ) → IsText (replicate n b'/')
replicate-IsText zero = tt
replicate-IsText (suc n) = (omega arith, replicate-IsText n)

login_text-long_path_example :
    (are_short (replicate 256 b'/') (codes "/b") ≡ true)
    × (login_text (λ _. 1) (replicate 256 b'/') (codes "/b")
        ≡ some (request_of b'0' (replicate 256 b'/') (codes "/b")))
login_text-long_path_example =
    login_text-long_path (λ _. 1) (replicate 256 b'/') (codes "/b") (replicate-IsText 256)
      name_IsText (length-replicate {A = ℕ} 256 b'/') (omega arith)
