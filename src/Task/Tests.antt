-- ===== src/Task/Tests.antt =====
-- The text "5|/p|/b" that a task is printed as, and a text that begins with the byte 3.
use so_server_and_pipes.Base.{◌≡◌, refl, ◌≢◌, some, [], ◌∷◌, arith, codes}
use so_server_and_pipes.Fs.Memory.{Bytes, write_bytes}
use so_server_and_pipes.Task.{task_to_string, opcode, pipe_path, box_name, field}
use so_server_and_pipes.Task.Scan.{parsed, no_task, string_to_task, word, login, unknown}
use so_server_and_pipes.Task.Exits.{string_to_task-task_to_string, string_to_task-byte}

-- The request to remove the box "/b", for a client with the pipe "/p".
abbrev remove_task : Bytes
remove_task =
    write_bytes (write_bytes (write_bytes (λ _. 0) pipe_path (codes "/p")) opcode (5 ∷ [])) box_name
      (codes "/b")

remove_text : task_to_string remove_task ≡ some (codes "5|/p|/b")
unfolding task_to_string write_bytes
remove_text = refl

string_to_task-task_to_string_example : string_to_task (codes "5|/p|/b") (λ _. 1) ≡ no_task
string_to_task-task_to_string_example =
    string_to_task-task_to_string remove_task (λ _. 1) (codes "5|/p|/b") remove_text

login≢unknown : login ≢ unknown
login≢unknown e = cc

string_to_task-byte_example :
    (m : Bytes) × (string_to_task (3 ∷ codes "|/p|/b") (λ _. 1) ≡ parsed m)
    × (m opcode ≡ 3)
    × (field m pipe_path ≡ some [])
    × (field m box_name ≡ some (word (codes "|/p|/b")))
string_to_task-byte_example =
    string_to_task-byte 3 (codes "|/p|/b") (λ _. 1) refl login≢unknown (omega arith) (omega arith)
