-- ===== src/Broker/Tests/Requests.antt =====
-- A round of the main loop, and requests that are served.
use so_server_and_pipes.Base.{
  ◌≤◌, length, ℕ, ◌≡◌, refl, some, List, [], ◌∷◌, ◌++◌, arith, pos, int_of_size, find_from, codes,
}
use so_server_and_pipes.Fs.Memory.{Bytes, write_bytes}
use so_server_and_pipes.Fs.Setup.{tfs_init}
use so_server_and_pipes.Fs.Ops.{tfs_open}
use so_server_and_pipes.Os.{Answer, exited, outside, exit_failure}
use so_server_and_pipes.Broker.{done, Broker}
use so_server_and_pipes.Broker.Remove.{opened, called}
use so_server_and_pipes.Broker.Listing.{response_of, box_list_boxes}
use so_server_and_pipes.Broker.Listing.Response.{listed, box_list_boxes-eq}
use so_server_and_pipes.Os.{call_write, call_close}
use so_server_and_pipes.Broker.Serve.{serve}
use so_server_and_pipes.Broker.Main.{Environment, main}
use so_server_and_pipes.Broker.Main.First.{IsRoomy, main-task_to_string}
use so_server_and_pipes.Broker.Samples.{blank}
use so_server_and_pipes.Base.{true, suc, minus_one}
use so_server_and_pipes.Os.{call_signal, call_unlink, call_mkfifo, call_open, call_read}
use so_server_and_pipes.Task.{task_size}
use so_server_and_pipes.Broker.Serve.Place.{serve-no_place}
use so_server_and_pipes.Broker.Tests.{
  no_boxes, three_boxes, two_files, one_file, returns, request, mallocs,
}
use so_server_and_pipes.Task.{task_to_string, opcode, pipe_path, box_name}

-- What the first read returns.
abbrev reads : List ℕ → Answer
reads bytes = record (returns 1) { bytes = bytes }

abbrev with_answers : List Answer → Broker
with_answers as' = record three_boxes { os = record { answers = as'; calls = [] } }

-- The request to remove the box "/b", for a client with the pipe "/p".
abbrev remove_task : Bytes
remove_task =
    write_bytes (write_bytes (write_bytes (λ _. 0) pipe_path (codes "/p")) opcode (5 ∷ [])) box_name
      (codes "/b")

abbrev remove_bytes : List ℕ
remove_bytes = (codes "5|/p|/b" ++ 0 ∷ []) ++ (7 ∷ [])

remove_text : task_to_string remove_task ≡ some (codes "5|/p|/b")
unfolding task_to_string write_bytes
remove_text = refl

-- A broker that is to start: nothing is allocated, and the pipe is not there yet.
abbrev roomy : Environment
roomy = record {
  mallocs = mallocs;
  first_queue = true;
  builder = true;
  task_queue = some (record {
    pcq_buffer = λ _. 0;
    pcq_capacity = 0;
    pcq_current_size = 0;
    pcq_head = 0;
    pcq_tail = 0;
  });
  pcq_buffer = some (λ _. 0);
  atoi = λ _. pos 3;
  pthread_create = λ _. pos 0;
}

abbrev no_file : Answer
no_file = record { result = minus_one; bytes = []; enoent = true }

abbrev starting : Broker
starting =
    record (with_answers (
      returns 0
      ∷ (no_file ∷ (returns 0 ∷ (returns 3 ∷ (reads remove_bytes ∷ (returns 9 ∷ []))))))) {
        fs = blank;
      }

roomy-IsRoomy : IsRoomy roomy
roomy-IsRoomy = record {
  tables = refl;
  first_queue = refl;
  builder = refl;
  task_queue = (_, refl);
  pcq_buffer = (_, refl);
}

main-task_to_string_example :
    (b' : Broker) × (main roomy
        (λ _ b. done tt b)
        (λ _. 1)
        0
        (suc 6)
        (codes "/s" ∷ (codes "3" ∷ []))
        starting
      ≡ exited exit_failure b')
    × (b'.os.answers ≡ returns 9 ∷ [])
    × (b'.os.calls
        ≡ call_signal
          ∷ (call_unlink (codes "/s")
              ∷ (call_mkfifo (codes "/s")
                  ∷ (call_open (codes "/s") ∷ (call_read (pos 3) task_size ∷ [])))))
main-task_to_string_example =
    main-task_to_string roomy (λ _ b. done tt b) (λ _. 1) 0 6 (codes "/s") (codes "3") [] starting
      (returns 0) no_file (returns 0) (returns 3) (reads remove_bytes) (returns 9 ∷ []) remove_task
      (codes "5|/p|/b") (7 ∷ []) roomy-IsRoomy refl refl refl refl refl refl remove_text refl
      (omega arith)

serve-no_place_example :
    (b' : Broker) × (serve 0 (λ _. 0) 2 no_boxes ≡ outside b')
    × (b'.fs ≡ two_files)
    × (b'.os ≡ (opened no_boxes 2 (returns 0 ∷ returns 6 ∷ [])).os)
unfolding two_files one_file tfs_open tfs_init find_from int_of_size
serve-no_place_example =
    serve-no_place 0 2 1 (λ _. 0) no_boxes (returns 5) (returns 0 ∷ returns 6 ∷ []) two_files refl
      refl tt (λ i lt. absurd (omega arith)) refl

-- A request to list boxes, all named "/b", by a client with the pipe "/tmp/p".
abbrev lists : Broker
lists = record three_boxes {
  tasks = λ _. record (request 7 (codes "/b")) { message = codes "/tmp/p" };
  os = record { answers = returns 5 ∷ returns 170 ∷ returns 0 ∷ []; calls = [] };
}

box_list_boxes-eq_example :
    let response = response_of (λ _. codes "/b") lists.boxes 3 in
    (length response ≤ 170)
    × (box_list_boxes (λ boxes n. boxes) 0 lists
        ≡ done tt (
            called
              (called
                (listed (λ boxes n. boxes) 0 2 lists (returns 170 ∷ returns 0 ∷ []))
                (call_write (pos 5) response 170)
                (returns 0 ∷ []))
              (call_close (pos 5))
              []))
box_list_boxes-eq_example =
    box_list_boxes-eq (λ boxes n. boxes) 0 2 lists (returns 5) (returns 170) (returns 0) [] refl
      refl (omega arith) (λ x lt. (x, lt, refl)) (λ y lt. omega arith) refl
