-- ===== src/Broker/Messages/Stale.antt =====
-- What the loop of sub_connect_request sends.
use so_server_and_pipes.Base.{
  ℕ, zero, suc, ◌<◌, ◌≡◌, refl, ap, ◌∙◌, inr, false, some, List, [], ◌∷◌, ◌++◌, arith,
  if◌then◌else◌, length, replicate, ℤ, pos, is_minus_one,
}
use mathlib.Core.List.{append_assoc}
use so_server_and_pipes.Fs.Memory.{Bytes, write_bytes, write_bytes-outside}
use so_server_and_pipes.Fs.Exec.{ok}
use so_server_and_pipes.Fs.Ops.Handles.{entry, node, IsHandle, released}
use so_server_and_pipes.Fs.Ops.Append.{tfs_read-at_end}
use so_server_and_pipes.Os.{
  Answer, Call, waiting, and_then, exit_failure, is_negative, answer_to, call_write, call_close,
  pure, exit, sys, Prog, ◌>>◌,
}
use so_server_and_pipes.Broker.{Broker, on_fs, on_os, io, exit_if, task_to_str}
use so_server_and_pipes.Broker.Remove.{called, sys-eq}
use so_server_and_pipes.Broker.Messages.{send_message, send_buffer, subscribe, message_request_size}
use so_server_and_pipes.Task.{message_max_size, string_at}

-- No answer is -1.
abbrev pub AreGood : List Answer → Type 0
AreGood [] = Unit {0}
AreGood (a ∷ as') = (is_minus_one a.result ≡ false) × AreGood as'

-- The write of a text to a subscriber.
abbrev pub sending : ℤ → List ℕ → Call
sending sub_pipe text = call_write sub_pipe (task_to_str 10 text) message_request_size

nothing_written : (m : Bytes) → write_bytes m 0 [] ≡ m
nothing_written m = λ j x. write_bytes-outside m 0 [] x (inr (omega arith)) j

called-IsHandle :
    {i p : ℕ} (b : Broker) (c : Call) (as' : List Answer)
    → IsHandle b.fs i p
    → IsHandle (called b c as').fs i p
called-IsHandle b c as' h = h

module _ (sub_pipe : ℤ) (i p : ℕ) (buffer : Bytes) (text : List ℕ)
    (begins : string_at buffer 0 message_max_size ≡ some text) where
  send_buffer-eq :
      (b : Broker)
      → send_buffer sub_pipe buffer b
        ≡ and_then (io (sys (sending sub_pipe text)) b) (λ a.
          if is_minus_one a.result
          then (io (sys (call_close sub_pipe)) >> exit exit_failure)
          else pure buffer)
  unfolding send_buffer
  send_buffer-eq b = rw begins

  send_message-at_end :
      (b : Broker)
      → b.fs.library_mutex ≡ false
      → IsHandle b.fs i p
      → (entry b.fs i).of_offset ≡ (node b.fs p).i_size
      → send_message sub_pipe (pos i) buffer b ≡ send_buffer sub_pipe buffer b
  unfolding send_message
  send_message-at_end b free_mutex h at =
      let read =
        tfs_read-at_end message_max_size free_mutex h at
        ∙ ap (ok (pos 0, [])) (released b.fs free_mutex) in
      ap
        (λ r. and_then (on_fs b r) (λ x.
          exit_if (is_negative x.0) exit_failure
          >> send_buffer sub_pipe (write_bytes buffer 0 x.1)))
        read
      ∙ ap (λ m. send_buffer sub_pipe m b) (nothing_written buffer)

  -- Through a handle at the end of a file of which no call returns -1, the loop sends the text that
  -- the buffer held before again and again, until a write does not return: no byte of the file.
  pub subscribe-stale :
      (k : ℕ) (as' : List Answer) (b : Broker)
      → b.os.answers ≡ as'
      → length as' < k
      → AreGood as'
      → b.fs.library_mutex ≡ false
      → IsHandle b.fs i p
      → (entry b.fs i).of_offset ≡ (node b.fs p).i_size
      → subscribe k sub_pipe (pos i) buffer b
        ≡ waiting (record b {
          os = record {
            answers = [];
            calls = b.os.calls ++ replicate (suc (length as')) (sending sub_pipe text);
          };
        })
  unfolding subscribe
  subscribe-stale zero as' b e lt good free_mutex h at = absurd (omega arith)
  subscribe-stale (suc k) [] b e lt good free_mutex h at =
      ap (λ r. and_then r (subscribe k sub_pipe (pos i)))
        (send_message-at_end b free_mutex h at
          ∙ send_buffer-eq b
          ∙ ap (λ l. and_then (on_os b (answer_to (sending sub_pipe text) l b.os.calls)) after) e)
    where
      after : Answer → Prog Broker Bytes
      after a =
          if is_minus_one a.result
          then (io (sys (call_close sub_pipe)) >> exit exit_failure)
          else pure buffer
  subscribe-stale (suc k) (a ∷ as') b e lt (good, rest_good) free_mutex h at =
      let b' = called b (sending sub_pipe text) as' in
      ap (λ r. and_then r (subscribe k sub_pipe (pos i)))
        (send_message-at_end b free_mutex h at
          ∙ send_buffer-eq b
          ∙ ap (λ r. and_then r after) (sys-eq b (sending sub_pipe text) a as' e)
          ∙ ap
              (λ v.
                (if v then (io (sys (call_close sub_pipe)) >> exit exit_failure) else pure buffer)
                  b')
              good)
      ∙ subscribe-stale k as' b' refl (omega (arith, lt)) rest_good free_mutex
          (called-IsHandle b (sending sub_pipe text) as' h) at
      ∙ ap (λ l. waiting (record b { os = record { answers = []; calls = l } }))
          (append_assoc b.os.calls (sending sub_pipe text ∷ [])
            (replicate (suc (length as')) (sending sub_pipe text)))
    where
      after : Answer → Prog Broker Bytes
      after a =
          if is_minus_one a.result
          then (io (sys (call_close sub_pipe)) >> exit exit_failure)
          else pure buffer
