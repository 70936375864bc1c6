-- ===== src/Broker/Messages/Calls.antt =====
-- How many system calls are left behind the parts of pub_connect_request and sub_connect_request.
use so_server_and_pipes.Base.{
  ℕ, suc, ◌+◌, ◌≤◌, ◌<◌, ◌≡◌, refl, Bool, true, false, Option, none, some, List, [], ◌∷◌, arith,
  ltb, if◌then◌else◌, length, ℤ, is_minus_one,
}
use so_server_and_pipes.Fs.Memory.{Bytes, write_bytes, int_bytes}
use so_server_and_pipes.Fs.Exec.{index, Run, ok, panic, fault, blocked, Cmd}
use so_server_and_pipes.Os.{
  ◌>>=◌, ◌>>◌, and_then, is_negative, Answer, Call, Ran, Prog, done, exited, waiting, outside, pure,
  exit, exit_failure, answer_to, sys, call_read, call_close, call_write,
}
use so_server_and_pipes.Broker.{task_to_str, Broker, io, on_os, on_fs, tfs, get, exit_if}
use so_server_and_pipes.Broker.Messages.{
  message_request_size, need, need_task, next_message, answer_int, send_message, parse_message,
  write_message, append_to, send_buffer,
}
use so_server_and_pipes.Fs.Ops.{tfs_open, tfs_read, tfs_write, tfs_close, tfs_o_append}
use so_server_and_pipes.Task.{string_at, field, message, message_max_size}
use so_server_and_pipes.Task.Scan.{string_to_task, Parsed, parsed, no_task, overrun}

-- Fewer than `n` answers are left where the program goes on.
abbrev pub IsBelow {ℓ} : {A : Type ℓ} → ℕ → Ran Broker A → Type 0
IsBelow n (done a b) = length b.os.answers < n
IsBelow n (exited c b) = Unit {0}
IsBelow n (waiting b) = Unit {0}
IsBelow n (outside b) = Unit {0}

pub and_then-IsBelow {ℓ κ} :
    {A : Type ℓ} {B : Type κ} (r : Ran Broker A) (k : A → Prog Broker B) (n m : ℕ)
    → IsBelow n r
    → ((a : A) (b : Broker) → length b.os.answers < n → IsBelow m (k a b))
    → IsBelow m (and_then r k)
and_then-IsBelow (done a b) k n m h rest = rest a b h
and_then-IsBelow (exited c b) k n m h rest = tt
and_then-IsBelow (waiting b) k n m h rest = tt
and_then-IsBelow (outside b) k n m h rest = tt

pub and_then-same {ℓ κ} :
    {A : Type ℓ} {B : Type κ} (r : Ran Broker A) (k k' : A → Prog Broker B) (n : ℕ)
    → IsBelow n r
    → ((a : A) (b : Broker) → length b.os.answers < n → k a b ≡ k' a b)
    → and_then r k ≡ and_then r k'
and_then-same (done a b) k k' n h same = same a b h
and_then-same (exited c b) k k' n h same = refl
and_then-same (waiting b) k k' n h same = refl
and_then-same (outside b) k k' n h same = refl

-- A system call uses up an answer; all else keeps them.
answer_to-IsBelow :
    (b : Broker) (c : Call) (as' : List Answer) (cs : List Call) (n : ℕ)
    → length as' ≤ n
    → IsBelow n (on_os b (answer_to c as' cs))
answer_to-IsBelow b c [] cs n h = tt
answer_to-IsBelow b c (a ∷ as') cs n h = omega (arith, h)

io-IsBelow : (c : Call) (b : Broker) (n : ℕ) → length b.os.answers ≤ n → IsBelow n (io (sys c) b)
io-IsBelow c b n h = answer_to-IsBelow b c b.os.answers b.os.calls n h

on_fs-IsBelow {ℓ} :
    {A : Type ℓ} (b : Broker) (r : Run A) (n : ℕ) → length b.os.answers < n → IsBelow n (on_fs b r)
on_fs-IsBelow b (ok a fs) n h = h
on_fs-IsBelow b panic n h = tt
on_fs-IsBelow b fault n h = tt
on_fs-IsBelow b blocked n h = tt

exit_if-IsBelow :
    (v : Bool) (c : ℤ) (b : Broker) (n : ℕ) → length b.os.answers < n → IsBelow n (exit_if v c b)
exit_if-IsBelow true c b n h = tt
exit_if-IsBelow false c b n h = h

pub need-IsBelow {ℓ} :
    {A : Type ℓ} (o : Option A) (b : Broker) (n : ℕ)
    → length b.os.answers < n
    → IsBelow n (need o b)
need-IsBelow none b n h = tt
need-IsBelow (some a) b n h = h

need_task-IsBelow :
    (p : Parsed) (b : Broker) (n : ℕ) → length b.os.answers < n → IsBelow n (need_task p b)
need_task-IsBelow (parsed m) b n h = h
need_task-IsBelow no_task b n h = tt
need_task-IsBelow overrun b n h = tt

-- A program that keeps the answers, and one that begins with a system call.
pub record IsKeeping {ℓ} {A : Type ℓ} (p : Prog Broker A) : Type 0 where
  pub kept : (b : Broker) (n : ℕ) → length b.os.answers < n → IsBelow n (p b)

pub record IsCalling {ℓ} {A : Type ℓ} (p : Prog Broker A) : Type 0 where
  pub used : (b : Broker) (n : ℕ) → length b.os.answers ≤ n → IsBelow n (p b)

pub IsCalling-IsKeeping {ℓ} : {A : Type ℓ} {p : Prog Broker A} → IsCalling p → IsKeeping p
IsCalling-IsKeeping h = record { kept = λ b n lt. h.used b n (omega (arith, lt)) }

pub then-IsKeeping {ℓ κ} :
    {A : Type ℓ} {B : Type κ} {p : Prog Broker A} {k : A → Prog Broker B}
    → IsKeeping p
    → ((a : A) → IsKeeping (k a))
    → IsKeeping (p >>= k)
then-IsKeeping {p = p} {k = k} h rest = record {
  kept = λ b n lt. and_then-IsBelow (p b) k n n (h.kept b n lt) (λ a b'. (rest a).kept b' n);
}

pub then-IsCalling {ℓ κ} :
    {A : Type ℓ} {B : Type κ} {p : Prog Broker A} {k : A → Prog Broker B}
    → IsCalling p
    → ((a : A) → IsKeeping (k a))
    → IsCalling (p >>= k)
then-IsCalling {p = p} {k = k} h rest = record {
  used = λ b n lt. and_then-IsBelow (p b) k n n (h.used b n lt) (λ a b'. (rest a).kept b' n);
}

pub call_keeps : (c : Call) → IsCalling (io (sys c))
call_keeps c = record { used = λ b n. io-IsBelow c b n }

pub tfs_keeps {ℓ} : {A : Type ℓ} (c : Cmd A) → IsKeeping (tfs c)
tfs_keeps c = record { kept = λ b n. on_fs-IsBelow b (c b.fs) n }

pub exit_if_keeps : (v : Bool) (c : ℤ) → IsKeeping (exit_if v c)
exit_if_keeps v c = record { kept = exit_if-IsBelow v c }

pub need_keeps {ℓ} : {A : Type ℓ} (o : Option A) → IsKeeping (need o)
need_keeps o = record { kept = need-IsBelow o }

need_task_keeps : (p : Parsed) → IsKeeping (need_task p)
need_task_keeps p = record { kept = need_task-IsBelow p }

pub pure_keeps {ℓ} : {A : Type ℓ} (a : A) → IsKeeping (pure {S = Broker} a)
pure_keeps a = record { kept = λ b n lt. lt }

pub exit_keeps {ℓ} : {A : Type ℓ} (c : ℤ) → IsKeeping (exit {S = Broker} {A = A} c)
exit_keeps c = record { kept = λ b n lt. tt }

get_keeps : IsKeeping get
get_keeps = record { kept = λ b n lt. lt }

pub if_keeps {ℓ} :
    {A : Type ℓ} (v : Bool) {p q : Prog Broker A}
    → IsKeeping p
    → IsKeeping q
    → IsKeeping (if v then p else q)
if_keeps true hp hq = hp
if_keeps false hp hq = hq

then_calls {ℓ κ} :
    {A : Type ℓ} {B : Type κ} {p : Prog Broker A} {k : A → Prog Broker B}
    → IsKeeping p
    → ((a : A) → IsCalling (k a))
    → IsCalling (p >>= k)
then_calls {p = p} {k = k} h rest = record {
  used = λ b n lt.
      and_then-IsBelow (p b) k (suc n) n (h.kept b (suc n) (omega (arith, lt)))
        (λ a b' lt'. (rest a).used b' n (omega (arith, lt')));
}

-- The call whose failure ends the process.
pub unless_failed {ℓ} :
    {A : Type ℓ} (fd : ℤ) (v : Bool) (q : Prog Broker A)
    → IsKeeping q
    → IsKeeping (if v then (io (sys (call_close fd)) >> exit exit_failure) else q)
unless_failed fd true q h =
    then-IsKeeping (IsCalling-IsKeeping (call_keeps (call_close fd))) (λ _. exit_keeps exit_failure)
unless_failed fd false q h = h

parse_message_keeps : (junk : Bytes) (bytes : List ℕ) → IsKeeping (parse_message junk bytes)
unfolding parse_message
parse_message_keeps junk bytes =
    then-IsKeeping (need_keeps (string_at (write_bytes junk 0 bytes) 0 message_request_size)) (λ s.
      then-IsKeeping (need_task_keeps (string_to_task s junk)) (λ m. need_keeps (field m message)))

pub next_message_calls : (junk : Bytes) (fd : ℤ) → IsCalling (next_message junk fd)
unfolding next_message
next_message_calls junk fd = then-IsCalling (call_keeps (call_read fd message_request_size)) (λ a.
    unless_failed fd (is_minus_one a.result) (parse_message junk a.bytes)
      (parse_message_keeps junk a.bytes))

write_message_keeps : (fd : ℤ) (text : List ℕ) → IsKeeping (write_message fd text)
unfolding write_message
write_message_keeps fd text = then-IsKeeping (tfs_keeps (tfs_write fd text (length text))) (λ wr.
    then-IsKeeping (exit_if_keeps (is_minus_one wr) exit_failure)
      (λ _. then-IsKeeping (tfs_keeps (tfs_close fd)) (λ _. pure_keeps false)))

pub append_to_keeps : (name text : List ℕ) → IsKeeping (append_to name text)
unfolding append_to
append_to_keeps name text = then-IsKeeping (tfs_keeps (tfs_open (some name) tfs_o_append)) (λ fd.
    then-IsKeeping (exit_if_keeps (is_minus_one fd) exit_failure) (λ _.
      then-IsKeeping (tfs_keeps (tfs_read fd message_max_size)) (λ r.
        then-IsKeeping (exit_if_keeps (is_negative r.0) exit_failure) (λ _.
          if_keeps (ltb 1024 (index r.0 + length text)) (pure_keeps true)
            (write_message_keeps fd text)))))

pub answer_int_calls : (fd v : ℤ) → IsCalling (answer_int fd v)
unfolding answer_int
answer_int_calls fd v =
    then-IsCalling (call_keeps (call_write fd (int_bytes v) 4))
      (λ a. exit_if_keeps (is_negative a.result) exit_failure)

send_buffer_calls : (sub_pipe : ℤ) (buffer : Bytes) → IsCalling (send_buffer sub_pipe buffer)
unfolding send_buffer
send_buffer_calls sub_pipe buffer =
    then_calls (need_keeps (string_at buffer 0 message_max_size)) (λ text.
      then-IsCalling (call_keeps (call_write sub_pipe (task_to_str 10 text) message_request_size))
        (λ a. unless_failed sub_pipe (is_minus_one a.result) (pure buffer) (pure_keeps buffer)))

pub send_message_calls :
    (sub_pipe tfs_fd : ℤ) (buffer : Bytes) → IsCalling (send_message sub_pipe tfs_fd buffer)
unfolding send_message
send_message_calls sub_pipe tfs_fd buffer =
    then_calls (tfs_keeps (tfs_read tfs_fd message_max_size)) (λ r.
      then_calls (exit_if_keeps (is_negative r.0) exit_failure)
        (λ _. send_buffer_calls sub_pipe (write_bytes buffer 0 r.1)))
