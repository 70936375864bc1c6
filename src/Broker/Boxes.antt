-- ===== src/Broker/Boxes.antt =====
-- mbroker/mbroker.c: box_create_request and box_remove_request.
use so_server_and_pipes.Base.{
  ℕ, zero, suc, ◌+◌, ◌-◌, Bool, true, false, Option, none, some, ◌==◌, if◌then◌else◌, update, ℤ,
  pos, negsuc, minus_one, is_minus_one, find_below, find_from, codes,
}
use so_server_and_pipes.Fs.Memory.{Bytes}
use so_server_and_pipes.Fs.Exec.{in_table, index}
use so_server_and_pipes.Fs.Setup.{is_zero}
use so_server_and_pipes.Fs.Ops.{tfs_open, tfs_unlink, tfs_o_creat}
use so_server_and_pipes.Os.{
  Prog, done, outside, pure, exit_failure, sys, ◌>>=◌, ◌>>◌, call_open, call_close,
}
use so_server_and_pipes.Broker.{
  MailBox, Broker, io, tfs, get, put, exit_if, name_of, is_box_of, rounds, max_boxes, refuse,
}

-- The loop of `box_create_request`: `k` rounds from box `i` on, each of which answers if the box has
-- the name.
unfoldable pub report_existing : ℕ → ℕ → ℕ → ℤ → Prog Broker (Unit {0})
unfolding refuse
report_existing zero i task pipe_fd = pure tt
report_existing (suc k) i task pipe_fd =
    let rest = report_existing k (i + 1) task pipe_fd in
    do
      b ← get
      if is_box_of b task i
          then (do refuse pipe_fd (codes "THE BOX ALREADY EXISTS"); rest)
          else rest

-- `{"0"}`, and the box that `box_create_request` makes.
abbrev pub one_digit : Bytes
one_digit x = if x == 0 then b'0' else 0

abbrev pub new_box : ℕ → MailBox
new_box task = record {
  box_name = task;
  last = 1;
  box_size = 1024;
  num_publishers = 0;
  num_subscribers = 0;
  subs_array_pipe_path = one_digit;
}

-- `current_boxes--` and `current_boxes++`
abbrev pub decrement : ℤ → ℤ
decrement (pos zero) = negsuc 0
decrement (pos (suc n)) = pos n
decrement (negsuc n) = negsuc (suc n)

abbrev pub increment : ℤ → ℤ
increment (pos n) = pos (n + 1)
increment (negsuc zero) = pos 0
increment (negsuc (suc n)) = negsuc n

-- `boxes[i] = box`, an access outside the array where `i` is negative or not below its bound.
abbrev pub set_box : ℤ → (MailBox → MailBox) → Prog Broker (Unit {0})
set_box i change b =
    if in_table i max_boxes
    then done tt (record b { boxes = update b.boxes (index i) (change (b.boxes (index i))) })
    else outside b

-- The two writes to `boxes`, at `current_boxes - 1` and at `current_boxes`, and the increment.
unfoldable pub store_box : ℕ → ℤ → Prog Broker (Unit {0})
store_box task count = do
  set_box (decrement count) (λ box. record box { last = 0 })
  set_box count (λ box. new_box task)
  b ← get
  put (record b { current_boxes = increment count })

-- What follows the loop of `box_create_request`; the handle of the file stays open.
unfoldable pub make_box : ℕ → ℤ → ℤ → Prog Broker (Unit {0})
unfolding tfs_open store_box
make_box task pipe_fd count = do
  b ← get
  fhandle ← tfs (tfs_open (some (name_of b task)) tfs_o_creat)
  exit_if (is_minus_one fhandle) minus_one
  store_box task count
  io (sys (call_close pipe_fd))
  pure tt

-- `box_create_request`
unfoldable pub box_create_request : ℕ → Prog Broker (Unit {0})
unfolding report_existing make_box
box_create_request task = do
  b ← get
  pipe ← io (sys (call_open (b.tasks task).pipe_path))
  report_existing (rounds b.current_boxes) 0 task pipe.result
  make_box task pipe.result b.current_boxes

-- The inner loop: `k` rounds from index `j` on, each of which moves a box one place down.
unfoldable pub shift_boxes : ℕ → ℕ → (ℕ → MailBox) → ℕ → MailBox
shift_boxes zero j boxes = boxes
shift_boxes (suc k) j boxes = shift_boxes k (j + 1) (update boxes j (boxes (j + 1)))

-- The boxes after the inner loop, which runs where the outer loop has found the name.
unfoldable pub removed_at : (ℕ → MailBox) → ℕ → Option ℕ → ℕ → MailBox
unfolding shift_boxes
removed_at boxes count none = boxes
removed_at boxes count (some i) = shift_boxes (count - 1 - i) i boxes

-- The outer loop, which ends behind the first box of the name.
unfoldable pub remove_box : Broker → ℕ → ℕ → MailBox
unfolding find_from removed_at
remove_box b task =
    let count = rounds b.current_boxes in
    removed_at b.boxes count (find_below (is_box_of b task) count)

-- The two branches of `box_remove_request`, by whether there are no boxes.
unfoldable pub drop_box : ℕ → ℤ → Bool → Prog Broker (Unit {0})
unfolding remove_box refuse
drop_box task pipe_fd true b = refuse pipe_fd (codes "THERE AREN'T ANY BOXES") b
drop_box task pipe_fd false b = done tt (record b { boxes = remove_box b task })

-- What follows them.
unfoldable pub unlink_box : ℕ → Prog Broker (Unit {0})
unfolding tfs_unlink
unlink_box task = do
  b ← get
  r ← tfs (tfs_unlink (some (name_of b task)))
  exit_if (is_minus_one r) exit_failure
  b ← get
  put (record b { current_boxes = decrement b.current_boxes })

-- `box_remove_request`; the pipe that it opens is never closed.
unfoldable pub box_remove_request : ℕ → Prog Broker (Unit {0})
unfolding drop_box unlink_box
box_remove_request task = do
  b ← get
  pipe ← io (sys (call_open (b.tasks task).pipe_path))
  drop_box task pipe.result (is_zero b.current_boxes)
  unlink_box task
