-- ===== src/Subscriber/Tests.antt =====
-- A subscriber that gets the message "10|hi".
use so_server_and_pipes.Base.{◌≡◌, refl, false, [], ◌∷◌, ◌++◌, arith, pos, codes}
use so_server_and_pipes.Fs.Memory.{IsText}
use so_server_and_pipes.Os.{Answer, exited, exit_failure, call_read}
use so_server_and_pipes.Broker.{task_to_str}
use so_server_and_pipes.Subscriber.{session, read_size}
use so_server_and_pipes.Subscriber.Receive.{session-task_to_str}

hi_IsText : IsText (codes "hi")
hi_IsText = (omega arith, (omega arith, tt))

abbrev gets : Answer
gets = record { result = pos 7; bytes = (codes "10|hi" ++ 0 ∷ []) ++ (8 ∷ []); enoent = false }

session-task_to_str_example :
    session 3
      (λ _. 1)
      (pos 5)
      (pos 4)
      (codes "/p")
      (λ _. 0)
      (record { answers = gets ∷ []; calls = [] })
    ≡ exited exit_failure (record { answers = []; calls = call_read (pos 5) read_size ∷ [] })
unfolding task_to_str
session-task_to_str_example =
    session-task_to_str 2 (λ _. 1) (pos 5) (pos 4) (codes "/p") (λ _. 0)
      (record { answers = gets ∷ []; calls = [] }) gets [] 10 (codes "hi") (8 ∷ []) refl refl
      hi_IsText refl
