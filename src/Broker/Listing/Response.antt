-- ===== src/Broker/Listing/Response.antt =====
-- The response of box_list_boxes.
use so_server_and_pipes.Base.{
  ℕ, zero, suc, ◌+◌, ◌*◌, ◌/◌, ◌%◌, ◌≤◌, ◌<◌, ◌≡◌, refl, ap, ◌∙◌, true, some, List, ◌∷◌, ◌++◌,
  arith, if◌then◌else◌, length, ℤ, pos, length-append,
}
use so_server_and_pipes.Os.{
  is_positive, Answer, Prog, done, pure, need, sys, and_then, ◌>>◌, call_open, call_write,
  call_close,
}
use so_server_and_pipes.Broker.{MailBox, Broker, io, name_of}
use so_server_and_pipes.Broker.Remove.{called, sys-eq}
use so_server_and_pipes.Broker.Listing.{
  word_bytes, box_entry, box_entries, response_of, response_size, client_name, write_response,
  fitting_response, list_boxes, box_list_boxes,
}

length-word_bytes : (n v : ℕ) → length (word_bytes n v) ≡ n
unfolding word_bytes
length-word_bytes zero v = refl
length-word_bytes (suc n) v = ap suc (length-word_bytes n (v / 256))

length-box_entry : (name : List ℕ) (box : MailBox) → length (box_entry name box) ≡ length name + 24
unfolding box_entry
length-box_entry name box =
    let s = word_bytes 8 box.box_size in
    let p = word_bytes 8 box.num_publishers in
    let q = word_bytes 8 box.num_subscribers in
    omega (
      arith,
      length-append name (s ++ (p ++ q)),
      length-append s (p ++ q),
      length-append p q,
      length-word_bytes 8 box.box_size,
      length-word_bytes 8 box.num_publishers,
      length-word_bytes 8 box.num_subscribers,
    )

length-box_entries :
    (name : ℕ → List ℕ) (boxes : ℕ → MailBox) (k i : ℕ)
    → ((x : ℕ) → i ≤ x → x < i + k → length (name (boxes x).box_name) ≤ 32)
    → length (box_entries name boxes k i) ≤ k * 56
unfolding box_entries
length-box_entries name boxes zero i short = omega arith
length-box_entries name boxes (suc k) i short =
    let ih =
      length-box_entries name boxes k (i + 1) (λ x lo hi. short x (omega arith) (omega arith)) in
    omega (
      arith,
      ih,
      short i (omega arith) (omega arith),
      length-append (box_entry (name (boxes i).box_name) (boxes i))
          (box_entries name boxes k (i + 1)),
      length-box_entry (name (boxes i).box_name) (boxes i),
    )

write_response-eq :
    (fd : ℤ) (response : List ℕ) (size : ℕ) (b : Broker) (a a' : Answer) (rest : List Answer)
    → b.os.answers ≡ a ∷ a' ∷ rest
    → is_positive a.result ≡ true
    → write_response fd response size b
      ≡ done tt (called (called b (call_write fd response size) (a' ∷ rest)) (call_close fd) rest)
unfolding write_response
write_response-eq fd response size b a a' rest e good =
    let b₁ = called b (call_write fd response size) (a' ∷ rest) in
    let close : Prog Broker (Unit {0}) = io (sys (call_close fd)) >> pure tt in
    ap (λ r. and_then r (λ x. if is_positive x.result then close else pure tt))
      (sys-eq b (call_write fd response size) a (a' ∷ rest) e)
    ∙ ap (λ v. (if v then close else pure tt) b₁) good
    ∙ ap (λ r. and_then r (λ _. pure tt)) (sys-eq b₁ (call_close fd) a' rest refl)

client_name-eq : (m : List ℕ) → length m < 256 → client_name m ≡ some m
client_name-eq m h = ground arith

fitting_response-eq :
    (response : List ℕ) (size : ℕ)
    → length response ≤ size
    → fitting_response response size ≡ some response
fitting_response-eq response size h = ground arith

length_with_head :
    (c n : ℕ) (entries : List ℕ)
    → length entries ≤ n * 56
    → length (8 ∷ c ∷ entries) ≤ response_size n
length_with_head c n entries h = omega (arith, h)

-- The broker after the boxes are sorted and the pipe opened.
abbrev pub listed : ((ℕ → MailBox) → ℕ → ℕ → MailBox) → ℕ → ℕ → Broker → List Answer → Broker
listed qsort task n b rest = record (called b (call_open (b.tasks task).message) rest) {
  boxes = qsort b.boxes (suc n);
}

-- `box_list_boxes` with boxes in the table, of names of at most 32 bytes, for a client whose path has
-- less than 256: the response fits into its buffer, and if the write succeeds the request sorts the
-- boxes, writes the response about them, and closes the pipe. Each box that qsort gives is one of the
-- table.
pub box_list_boxes-eq :
    (qsort : (ℕ → MailBox) → ℕ → ℕ → MailBox) (task n : ℕ) (b : Broker) (a a' a'' : Answer)
    (rest : List Answer)
    → b.os.answers ≡ a ∷ a' ∷ a'' ∷ rest
    → b.current_boxes ≡ pos (suc n)
    → length (b.tasks task).message < 256
    → ((x : ℕ) → x < suc n → (y : ℕ) × (y < suc n) × (qsort b.boxes (suc n) x ≡ b.boxes y))
    → ((y : ℕ) → y < suc n → length (name_of b (b.boxes y).box_name) ≤ 32)
    → is_positive a'.result ≡ true
    → let response = response_of (name_of b) (qsort b.boxes (suc n)) (suc n) in
      let size = response_size (suc n) in
      (length response ≤ size)
      × (box_list_boxes qsort task b
          ≡ done tt (
              called
                (called
                  (listed qsort task n b (a' ∷ a'' ∷ rest))
                  (call_write a.result response size)
                  (a'' ∷ rest))
                (call_close a.result)
                rest))
unfolding box_list_boxes list_boxes response_of
box_list_boxes-eq qsort task n b a a' a'' rest e count path sorted short good =
    let boxes = qsort b.boxes (suc n) in
    let entries = length-box_entries (name_of b) boxes (suc n) 0 (λ x lo hi.
      let (y, below, same) = sorted x (omega arith) in
      let bound = short y below in
      omega (arith, bound, ap (λ m. length (name_of b m.box_name)) same)) in
    let fits =
      length_with_head (suc n % 256) (suc n) (box_entries (name_of b) boxes (suc n) 0) entries in
    let response = response_of (name_of b) boxes (suc n) in
    let named : client_name (b.tasks task).message ≡ some (b.tasks task).message =
      client_name-eq _ path in
    let b₁ = listed qsort task n b (a' ∷ a'' ∷ rest) in
    (
      fits,
      ap
            (λ o. and_then (need o b) (λ p b'.
              and_then (io (sys (call_open p)) b')
                (λ x. list_boxes qsort x.result b.current_boxes)))
            named
          ∙ ap (λ r. and_then r (λ x. list_boxes qsort x.result b.current_boxes))
              (sys-eq b (call_open (b.tasks task).message) a (a' ∷ a'' ∷ rest) e)
          ∙ ap
              (λ c.
                list_boxes qsort a.result c
                  (called b (call_open (b.tasks task).message) (a' ∷ a'' ∷ rest)))
              count
          ∙ ap
              (λ o.
                and_then (need o b₁)
                  (λ bytes. write_response a.result bytes (response_size (suc n))))
              (fitting_response-eq response (response_size (suc n)) fits)
          ∙ write_response-eq a.result response (response_size (suc n)) b₁ a' a'' rest refl good,
    )
