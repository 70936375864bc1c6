-- ===== src/Broker/Tests.antt =====
-- A broker with three boxes, and with none.
mod Requests
mod Messages
use so_server_and_pipes.Base.{
  ℕ, zero, suc, ◌+◌, ◌-◌, ◌*◌, ◌/◌, ◌%◌, ◌^◌, ◌≤◌, ◌<◌, ◌≡◌, refl, sym, ap, ◌∙◌, ◌≢◌, ◌⊎◌, inl, inr,
  Bool, true, false, not, ◌&&◌, ◌||◌, Option, none, some, List, [], ◌∷◌, ◌++◌, arith, ltb, leb,
  ◌==◌, if◌then◌else◌, length, get_or, take, replicate, update, ℤ, pos, negsuc, minus_one,
  is_minus_one, int_of_size, ssize_of_size, find_below, find_from, Finds, IsFirst, find_below-Finds,
  find_from-Finds, find_from-first, find_from-none, Bool-cases, Option-cases, tests, ==→eq, ==→ne,
  eq→==, ne→==, ltb→lt, ltb→le, lt→ltb, le→ltb, length-append, length-replicate, length-take,
  take-length, get_or-append_left, get_or-append_right, get_or-replicate, IsInt, signed32,
  unsigned32, signed32-unsigned32, int_of_size-pos, ssize_of_size-pos, update_self, update-ne, min,
  codes,
}
use so_server_and_pipes.Fs.Exec.{Fs, Run, ok, panic, fault, blocked, free, t_file}
use so_server_and_pipes.Fs.Setup.{tfs_init, Mallocs, tfs_default_params}
use so_server_and_pipes.Fs.Ops.{tfs_open, tfs_unlink, tfs_o_creat, slash}
use so_server_and_pipes.Os.{Answer, Os, done, exited, outside}
use so_server_and_pipes.Broker.{MailBox, Broker, Request, is_box_of}
use so_server_and_pipes.Broker.Samples.{blank}
use so_server_and_pipes.Broker.Boxes.{box_remove_request}
use so_server_and_pipes.Broker.Names.{box_names, without_name, box_names-box_remove_request}
use so_server_and_pipes.Broker.Remove.{box_remove_request-eq, box_remove_request-empty}
use so_server_and_pipes.Broker.Serve.{serve}
use so_server_and_pipes.Broker.Serve.Create.{serve-create}

abbrev mallocs : Mallocs
mallocs = record {
  inode_table = some blank.inode_table;
  freeinode_ts = some blank.freeinode_ts;
  fs_data = some blank.fs_data;
  free_blocks = some blank.free_blocks;
  open_file_table = some blank.open_file_table;
  free_open_file_entries = some blank.free_open_file_entries;
}

abbrev final {ℓ} : {A : Type ℓ} → Run A → Fs
final (ok a s) = s
final panic = blank
final fault = blank
final blocked = blank

-- The file of the box "/b" alone, which is enough to unlink it.
one_file : Fs
one_file = final (
    tfs_open (some (slash ∷ b'b' ∷ [])) tfs_o_creat
      (final (tfs_init mallocs (some (record tfs_default_params { block_size = 88 })) blank)))

abbrev request : ℕ → List ℕ → Request
request op name = record { opcode = op; pipe_path = codes "/tmp/p"; box_name = name; message = [] }

-- The tasks at the addresses 0 and 1, which name the boxes "/a" and "/b", and a request to create "/c".
abbrev tasks : ℕ → Request
tasks zero = request 3 (codes "/a")
tasks (suc zero) = request 5 (codes "/b")
tasks (suc (suc n)) = request 3 (codes "/c")

abbrev box : ℕ → MailBox
box name = record {
  box_name = name;
  last = 0;
  box_size = 1024;
  num_publishers = 0;
  num_subscribers = 0;
  subs_array_pipe_path = λ _. 0;
}

abbrev returns : ℕ → Answer
returns n = record { result = pos n; bytes = []; enoent = false }

abbrev table : ℕ → MailBox
table zero = box 0
table (suc zero) = box 1
table (suc (suc n)) = box 0

-- Three boxes, of which the second is "/b".
abbrev three_boxes : Broker
three_boxes = record {
  boxes = table;
  current_boxes = pos 3;
  tasks = tasks;
  fs = one_file;
  os = record { answers = returns 5 ∷ returns 0 ∷ returns 6 ∷ []; calls = [] };
}

box_names-box_remove_request_example :
    (b' : Broker) × (box_remove_request 1 three_boxes ≡ done tt b')
    × (box_names b' ≡ without_name (codes "/b") (codes "/a" ∷ codes "/b" ∷ codes "/a" ∷ []))
unfolding one_file tfs_unlink tfs_open tfs_init find_from int_of_size
box_names-box_remove_request_example =
    box_names-box_remove_request 1 three_boxes (returns 5) (returns 0 ∷ returns 6 ∷ []) 2 1
      (final (tfs_unlink (some (codes "/b")) one_file)) refl refl refl refl

abbrev no_boxes : Broker
no_boxes = record three_boxes { current_boxes = pos 0 }

box_remove_request-empty_example :
    (b' : Broker) × (box_remove_request 1 no_boxes ≡ done tt b')
    × (b'.current_boxes ≡ minus_one)
    × (b'.fs ≡ final (tfs_unlink (some (codes "/b")) one_file))
    × (b'.os.answers ≡ returns 6 ∷ [])
unfolding one_file tfs_unlink tfs_open tfs_init find_from int_of_size
box_remove_request-empty_example =
    box_remove_request-empty 1 no_boxes (returns 5) (returns 0) (returns 6 ∷ [])
      (final (tfs_unlink (some (codes "/b")) one_file)) refl refl refl refl

two_files : Fs
unfolding one_file
two_files = final (tfs_open (some (codes "/c")) tfs_o_creat one_file)

-- None of the three boxes has the name "/c".
other_names : (y : ℕ) → y < 3 → is_box_of three_boxes 2 y ≡ false
other_names zero lt = refl
other_names (suc zero) lt = refl
other_names (suc (suc y)) lt = refl

serve-create_example :
    (b' : Broker) × (serve 0 (λ _. 0) 2 three_boxes ≡ done tt b')
    × (b'.current_boxes ≡ pos 3)
    × (b'.fs ≡ final (tfs_unlink (some (codes "/c")) two_files))
    × (b'.boxes 1 ≡ three_boxes.boxes 1)
unfolding two_files one_file tfs_unlink tfs_open tfs_init find_from int_of_size
serve-create_example =
    serve-create 0 2 2 1 1 (λ _. 0) three_boxes (returns 5) (returns 0) (returns 6) [] two_files
      (final (tfs_unlink (some (codes "/c")) two_files)) refl refl refl (omega arith) other_names
      refl refl (omega arith)
