-- ===== src/Broker/Listing.antt =====
-- mbroker/mbroker.c: box_list_boxes, given what qsort does to the table.
pub mod Response
use so_server_and_pipes.Base.{
  ℕ, zero, suc, ◌+◌, ◌-◌, ◌*◌, ◌/◌, ◌%◌, ◌^◌, ◌≤◌, ◌<◌, ◌≡◌, refl, sym, ap, ◌∙◌, ◌≢◌, ◌⊎◌, inl, inr,
  Bool, true, false, not, ◌&&◌, ◌||◌, Option, none, some, List, [], ◌∷◌, ◌++◌, arith, ltb, leb,
  ◌==◌, if◌then◌else◌, length, get_or, take, replicate, update, ℤ, pos, negsuc, minus_one,
  is_minus_one, int_of_size, ssize_of_size, find_below, find_from, Finds, IsFirst, find_below-Finds,
  find_from-Finds, find_from-first, find_from-none, Bool-cases, Option-cases, tests, ==→eq, ==→ne,
  eq→==, ne→==, ltb→lt, ltb→le, lt→ltb, le→ltb, length-append, length-replicate, length-take,
  take-length, get_or-append_left, get_or-append_right, get_or-replicate, IsInt, signed32,
  unsigned32, signed32-unsigned32, int_of_size-pos, ssize_of_size-pos, update_self, update-ne, min,
  codes,
}
use so_server_and_pipes.Fs.Setup.{is_zero}
use so_server_and_pipes.Os.{
  is_positive, Answer, Call, Os, Ran, Prog, done, outside, pure, need, sys, and_then, ◌>>=◌, ◌>>◌,
  call_open, call_write, call_close,
}
use so_server_and_pipes.Broker.{MailBox, Request, Broker, io, get, put, name_of}

-- The `n` bytes of an integer, the lowest first; a `uint64_t` has 8.
unfoldable pub word_bytes : ℕ → ℕ → List ℕ
word_bytes zero v = []
word_bytes (suc n) v = v % 256 ∷ word_bytes n (v / 256)

-- What a round of the loop puts into the response.
unfoldable pub box_entry : List ℕ → MailBox → List ℕ
unfolding word_bytes
box_entry name box =
    name
    ++ (word_bytes 8 box.box_size
        ++ (word_bytes 8 box.num_publishers ++ word_bytes 8 box.num_subscribers))

-- The loop: `k` rounds from box `i` on.
unfoldable pub box_entries : (ℕ → List ℕ) → (ℕ → MailBox) → ℕ → ℕ → List ℕ
unfolding box_entry
box_entries name boxes zero i = []
box_entries name boxes (suc k) i =
    box_entry (name (boxes i).box_name) (boxes i) ++ box_entries name boxes k (i + 1)

-- The response about `n` boxes.
unfoldable pub response_of : (ℕ → List ℕ) → (ℕ → MailBox) → ℕ → List ℕ
unfolding box_entries
response_of name boxes n = 8 ∷ n % 256 ∷ box_entries name boxes n 0

-- `sizeof(response)`
abbrev pub response_size : ℕ → ℕ
response_size n = 2 + n * 56

-- `client_name`, of 256 bytes; `none` if it has no NUL.
abbrev pub client_name : List ℕ → Option (List ℕ)
client_name message = if ltb (length message) 256 then some message else none

-- The write of a response, and the close of the pipe if it has written something.
unfoldable pub write_response : ℤ → List ℕ → ℕ → Prog Broker (Unit {0})
write_response client_pipe response size = do
  a ← io (sys (call_write client_pipe response size))
  if is_positive a.result then (do io (sys (call_close client_pipe)); pure tt) else pure tt

-- A response that fits into its buffer.
abbrev pub fitting_response : List ℕ → ℕ → Option (List ℕ)
fitting_response response size = if leb (length response) size then some response else none

module _ (qsort : (ℕ → MailBox) → ℕ → ℕ → MailBox) where
  -- The two branches, by the count of the boxes; no array has a negative size.
  unfoldable pub list_boxes : ℤ → ℤ → Prog Broker (Unit {0})
  unfolding response_of write_response
  list_boxes client_pipe (pos zero) b = write_response client_pipe (8 ∷ 0 ∷ []) 2 b
  list_boxes client_pipe (negsuc n) b = outside b
  list_boxes client_pipe (pos (suc n)) b =
      let boxes = qsort b.boxes (suc n) in
      let response = response_of (name_of b) boxes (suc n) in
      and_then
        (need (fitting_response response (response_size (suc n))) (record b { boxes = boxes }))
        (λ bytes. write_response client_pipe bytes (response_size (suc n)))

  -- `box_list_boxes`
  unfoldable pub box_list_boxes : ℕ → Prog Broker (Unit {0})
  unfolding list_boxes
  box_list_boxes task = do
    b ← get
    path ← need (client_name (b.tasks task).message)
    client_pipe ← io (sys (call_open path))
    list_boxes client_pipe.result b.current_boxes
