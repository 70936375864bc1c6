-- ===== src/Broker/Tests/Messages.antt =====
-- A message to the box "/b", and a subscriber of it.
use so_server_and_pipes.Base.{
  ℕ, List, ◌≡◌, refl, inr, false, some, [], ◌∷◌, ◌++◌, arith, replicate, pos, int_of_size,
  find_from, codes,
}
use so_server_and_pipes.Fs.Memory.{Bytes, write_bytes}
use so_server_and_pipes.Fs.Exec.{Fs, free}
use so_server_and_pipes.Fs.Setup.{tfs_init}
use so_server_and_pipes.Fs.Dir.Entries.{IsName}
use so_server_and_pipes.Fs.Ops.{tfs_open}
use so_server_and_pipes.Fs.Ops.Handles.{IsHandle}
use so_server_and_pipes.Fs.Ops.Paths.{IsRooted}
use so_server_and_pipes.Fs.Ops.Append.{IsAppended}
use so_server_and_pipes.Os.{done, waiting}
use so_server_and_pipes.Broker.Messages.{append_message, subscribe}
use so_server_and_pipes.Broker.Messages.Append.{append_message-eq}
use so_server_and_pipes.Broker.Messages.Stale.{subscribe-stale, sending}
use so_server_and_pipes.Fs.Memory.RoundTrip.{write_bytes-Holds}
use so_server_and_pipes.Task.{string_at, message_max_size}
use so_server_and_pipes.Task.Text.{string_at-Holds}
use so_server_and_pipes.Broker.Tests.{three_boxes, one_file, returns}

one_file-IsRooted : IsRooted one_file 0
unfolding one_file tfs_open tfs_init find_from int_of_size
one_file-IsRooted = record {
  directory = record { node = refl; block = refl; valid = omega arith; sized = omega arith };
  exists = omega arith;
  in_use = refl;
}

abbrev name_b : List ℕ
name_b = codes "b"

name_b-IsName : IsName name_b
name_b-IsName = record { text = (omega arith, tt); some_byte = omega arith; fits = omega arith }

append_message-eq_example :
    (s : Fs) × (append_message 1 (codes "hi") three_boxes
      ≡ done false (record three_boxes { fs = s }))
    × IsAppended one_file s 1 1 (codes "hi")
    × (s.free_open_file_entries 1 ≡ free)
unfolding one_file tfs_open tfs_init find_from int_of_size
append_message-eq_example =
    append_message-eq 1 three_boxes (codes "b") (codes "hi") 1 1 1 refl refl one_file-IsRooted
      name_b-IsName refl (omega arith) refl (omega arith) (omega arith) (omega arith) (omega arith)
      (omega arith) (inr (refl, refl, omega arith, omega arith))

first-IsHandle : IsHandle one_file 0 1
unfolding one_file tfs_open tfs_init find_from int_of_size
first-IsHandle = record {
  in_use = omega arith;
  open_entry = refl;
  file = refl;
  exists = omega arith;
  offset_in = omega arith;
  small = omega arith;
}

-- The memory of a local variable that held "old" before.
abbrev old : Bytes
old = write_bytes (λ _. 0) 0 (codes "old" ++ 0 ∷ [])

old_text : string_at old 0 message_max_size ≡ some (codes "old")
old_text =
    string_at-Holds old 0 (codes "old") message_max_size
      (omega arith, (omega arith, (omega arith, tt))) (omega arith)
      (write_bytes-Holds (λ _. 0) 0 (codes "old" ++ 0 ∷ []))

subscribe-stale_example :
    subscribe 4 (pos 6) (pos 0) old three_boxes
    ≡ waiting (record three_boxes {
      os = record { answers = []; calls = replicate 4 (sending (pos 6) (codes "old")) };
    })
unfolding one_file tfs_open tfs_init find_from int_of_size
subscribe-stale_example =
    subscribe-stale (pos 6) 0 1 old (codes "old") old_text 4
      (returns 5 ∷ returns 0 ∷ returns 6 ∷ []) three_boxes refl (omega arith)
      (refl, (refl, (refl, tt))) refl first-IsHandle refl
