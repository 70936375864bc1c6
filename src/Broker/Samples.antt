-- ===== src/Broker/Samples.antt =====
-- Data for the tests of the broker and of its clients.
use so_server_and_pipes.Base.{ℕ, false, List, [], ◌∷◌, pos}
use so_server_and_pipes.Fs.Exec.{Fs, t_file, free}
use so_server_and_pipes.Fs.Setup.{tfs_default_params}
use so_server_and_pipes.Os.{Answer, Os}
use so_server_and_pipes.Broker.{Broker}

abbrev pub blank : Fs
blank = record {
  fs_params = tfs_default_params;
  allocated = false;
  inode_table = λ _. record { i_node_type = t_file; i_size = 0; i_data_block = pos 0 };
  freeinode_ts = λ _. free;
  fs_data = λ _. 0;
  free_blocks = λ _. free;
  open_file_table = λ _. record { of_inumber = pos 0; of_offset = 0 };
  free_open_file_entries = λ _. free;
  library_mutex = false;
}

-- What the broker's read returns.
abbrev pub reads : List ℕ → Answer
reads bytes = record { result = pos 1; bytes = bytes; enoent = false }

abbrev pub idle : Os
idle = record { answers = []; calls = [] }

-- A broker without boxes that has just started to read its pipe.
abbrev pub waits_for : List ℕ → Broker
waits_for bytes = record {
  boxes = λ _. record {
    box_name = 0;
    last = 0;
    box_size = 0;
    num_publishers = 0;
    num_subscribers = 0;
    subs_array_pipe_path = λ _. 0;
  };
  current_boxes = pos 0;
  tasks = λ _. record { opcode = 0; pipe_path = []; box_name = []; message = [] };
  fs = blank;
  os = record { answers = reads bytes ∷ []; calls = [] };
}
