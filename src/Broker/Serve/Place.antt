-- ===== src/Broker/Serve/Place.antt =====
-- A request to create a box that the table has no place for.
use so_server_and_pipes.Base.{
  ℕ, zero, suc, ◌<◌, ◌≡◌, refl, ap, ◌∙◌, false, some, List, ◌∷◌, arith, update, ℤ, pos, negsuc,
  lt→ltb, le→ltb,
}
use so_server_and_pipes.Fs.Memory.{Bytes}
use so_server_and_pipes.Fs.Exec.{Fs, ok}
use so_server_and_pipes.Fs.Ops.{tfs_open, tfs_o_creat}
use so_server_and_pipes.Os.{and_then, Answer, Ran, outside, call_open}
use so_server_and_pipes.Broker.{Broker, name_of, rounds, is_box_of, max_boxes}
use so_server_and_pipes.Broker.Boxes.{
  report_existing, store_box, make_box, box_create_request, box_remove_request,
}
use so_server_and_pipes.Broker.Remove.{sys-eq, opened}
use so_server_and_pipes.Broker.Serve.{serve, switch_to}
use so_server_and_pipes.Broker.Serve.Create.{report_existing-none}

-- The count of boxes is below 1, so that no box comes before it, or the table is full.
abbrev pub HasNoPlace : ℤ → Type 0
HasNoPlace (negsuc n) = Unit {0}
HasNoPlace (pos zero) = Unit {0}
HasNoPlace (pos (suc n)) = suc n ≡ max_boxes

-- The run ends by an access outside an array, with the files and the system calls of `b`.
abbrev pub Strays : Ran Broker (Unit {0}) → Broker → Type 0
Strays r b = (b' : Broker) × (r ≡ outside b') × (b'.fs ≡ b.fs) × (b'.os ≡ b.os)

store_box-Strays : (task : ℕ) (c : ℤ) (b : Broker) → HasNoPlace c → Strays (store_box task c b) b
unfolding store_box
store_box-Strays task (negsuc n) b h = (b, refl, refl, refl)
store_box-Strays task (pos zero) b h = (b, refl, refl, refl)
store_box-Strays task (pos (suc n)) b h =
    let b' = record b { boxes = update b.boxes n (record (b.boxes n) { last = 0 }) } in
    (
      b',
      rw (lt→ltb n max_boxes (omega (arith, h))) (rw (le→ltb (suc n) max_boxes (omega (arith, h)))),
      refl,
      refl,
    )

make_box-Strays :
    (task k : ℕ) (fd c : ℤ) (b : Broker) (fs : Fs)
    → HasNoPlace c
    → tfs_open (some (name_of b task)) tfs_o_creat b.fs ≡ ok (pos k) fs
    → Strays (make_box task fd c b) (record b { fs = fs })
unfolding make_box
make_box-Strays task k fd c b fs h made =
    let (b', e, same_fs, same_os) = store_box-Strays task c (record b { fs = fs }) h in
    (b', rw (made, e), same_fs, same_os)

box_create_request-Strays :
    (task k : ℕ) (b : Broker) (a : Answer) (rest : List Answer) (fs : Fs)
    → b.os.answers ≡ a ∷ rest
    → HasNoPlace b.current_boxes
    → ((i : ℕ) → i < rounds b.current_boxes → is_box_of b task i ≡ false)
    → tfs_open (some (name_of b task)) tfs_o_creat b.fs ≡ ok (pos k) fs
    → Strays (box_create_request task b) (record (opened b task rest) { fs = fs })
unfolding box_create_request
box_create_request-Strays task k b a rest fs e h new made =
    let b₁ = opened b task rest in
    let (b', strays, same_fs, same_os) =
      make_box-Strays task k a.result b.current_boxes b₁ fs h made in
    (
      b',
      ap
            (λ r. and_then r (λ pipe b'.
              and_then (report_existing (rounds b.current_boxes) 0 task pipe.result b')
                (λ _. make_box task pipe.result b.current_boxes)))
            (sys-eq b (call_open (b.tasks task).pipe_path) a rest e)
          ∙ ap (λ r. and_then r (λ _. make_box task a.result b.current_boxes))
              (report_existing-none (rounds b.current_boxes) 0 task a.result b₁
                (λ x lo hi. new x (omega (arith, hi))))
          ∙ strays,
      same_fs,
      same_os,
    )

-- Where the count of boxes is 0 or negative, or the table is full, a request to create a box of a
-- new name, whose file `tfs_open` opens, opens the client's pipe and the file and then writes outside
-- the table: before its first box, or behind its last.
pub serve-no_place :
    (fuel task k : ℕ) (junk : Bytes) (b : Broker) (a : Answer) (rest : List Answer) (fs : Fs)
    → (b.tasks task).opcode ≡ 3
    → b.os.answers ≡ a ∷ rest
    → HasNoPlace b.current_boxes
    → ((i : ℕ) → i < rounds b.current_boxes → is_box_of b task i ≡ false)
    → tfs_open (some (name_of b task)) tfs_o_creat b.fs ≡ ok (pos k) fs
    → (b' : Broker) × (serve fuel junk task b ≡ outside b')
      × (b'.fs ≡ fs)
      × (b'.os ≡ (opened b task rest).os)
unfolding serve switch_to
serve-no_place fuel task k junk b a rest fs op e h new made =
    let (b', strays, same_fs, same_os) =
      box_create_request-Strays task k b a rest fs e h new made in
    (
      b',
      ap (λ o. switch_to fuel junk task o b) op
          ∙ ap (λ r. and_then r (λ _. box_remove_request task)) strays,
      same_fs,
      same_os,
    )
