-- ===== src/Fs/Tests/Session.antt =====
-- The theorems on the invariant, and on the map from names to bytes, at the states of sessions.
use so_server_and_pipes.Base.{
  ℕ, ◌<◌, ◌≡◌, refl, inl, none, some, List, [], ◌∷◌, arith, ℤ, pos, int_of_size, ssize_of_size,
  find_from,
}
use so_server_and_pipes.Base.{subst}
use so_server_and_pipes.Fs.Exec.{Fs, taken, ok}
use so_server_and_pipes.Fs.Memory.{load_int}
use so_server_and_pipes.Fs.Setup.{tfs_init}
use so_server_and_pipes.Fs.Dir.{is_entry_of}
use so_server_and_pipes.Fs.Ops.{
  tfs_open, tfs_write, tfs_read, tfs_close, tfs_unlink, tfs_o_creat, tfs_o_trunc,
}
use so_server_and_pipes.Fs.Ops.Handles.{entry}
use so_server_and_pipes.Fs.Ops.Paths.{path_of}
use so_server_and_pipes.Fs.Inv.{Good}
use so_server_and_pipes.Fs.Inv.Start.{IsFresh, tfs_init-Good}
use so_server_and_pipes.Fs.Inv.Session.{
  open_call, close_call, write_call, run, Reached, start, after, Reached-Good, session-Good,
}
use so_server_and_pipes.Fs.View.{contents}
use so_server_and_pipes.Fs.View.Write.{IsChanged}
use so_server_and_pipes.Fs.View.Refine.{IsOpenAs, contents-tfs_write}
use so_server_and_pipes.Fs.View.Read.{contents-tfs_read}
use so_server_and_pipes.Fs.View.Unlink.{contents-tfs_unlink}
use so_server_and_pipes.Fs.View.Open.{contents-tfs_open}
use so_server_and_pipes.Fs.View.Create.{contents-tfs_open_new}
use so_server_and_pipes.Fs.Tests.{mallocs, params, blank, final, fresh, two_handles, written}
use so_server_and_pipes.Fs.Tests.Directory.{name_a, name_b, name_a-IsName, name_b-IsName}

blank-IsFresh : IsFresh mallocs params blank
blank-IsFresh = record {
  unallocated = refl;
  free_mutex = refl;
  enough = refl;
  some_inode = omega arith;
  some_block = omega arith;
  geometry = record {
    few_inodes = omega arith;
    few_blocks = omega arith;
    few_handles = omega arith;
    small_data = omega arith;
    small_block = omega arith;
  };
  nul = λ j lt. refl;
}

two_handles-Reached : Reached fresh two_handles
unfolding two_handles fresh tfs_open tfs_init find_from int_of_size
two_handles-Reached =
    after (open_call (path_of name_a) 0) (pos 1, [])
      (after (open_call (path_of name_a) tfs_o_creat) (pos 0, []) start (omega arith, λ e. cc) refl)
      (omega arith, λ e. cc) refl

session-Good_example :
    Good two_handles 0
    × ((r : ℤ × List ℕ) × (s' : Fs) × (run (write_call (pos 0) (7 ∷ 8 ∷ 9 ∷ []) 3) two_handles
          ≡ ok r s')
        × Reached fresh s')
unfolding fresh tfs_init find_from int_of_size
session-Good_example =
    session-Good mallocs params blank (write_call (pos 0) (7 ∷ 8 ∷ 9 ∷ []) 3) blank-IsFresh refl
      two_handles-Reached (omega arith, omega arith)

-- The invariant at the states of sessions.
session_state : {s : Fs} → Reached fresh s → Good s 0
unfolding fresh tfs_init find_from int_of_size
session_state reached =
    let (s', e, free_mutex, g) = tfs_init-Good mallocs params blank blank-IsFresh in
    let same : s' ≡ fresh = cc in
    (Reached-Good refl (subst (λ (x : Fs). Good x 0) same g) reached).1

written-Reached : Reached fresh written
unfolding written two_handles tfs_write fresh tfs_open tfs_init find_from int_of_size ssize_of_size
written-Reached =
    after (write_call (pos 0) (7 ∷ 8 ∷ 9 ∷ []) 3) (pos 3, []) two_handles-Reached
      (omega arith, omega arith) refl

written-IsOpenAs : IsOpenAs written 0 1 name_a
unfolding written two_handles tfs_write fresh tfs_open tfs_init find_from int_of_size load_int
    is_entry_of
written-IsOpenAs = record { in_use = omega arith; open_entry = refl; file = refl }

written-contents : contents written 0 name_a ≡ some (7 ∷ 8 ∷ 9 ∷ [])
unfolding written two_handles tfs_write fresh tfs_open tfs_init find_from int_of_size load_int
    is_entry_of
written-contents = refl

contents-tfs_write_example :
    (s' : Fs) × (tfs_write (pos 1) (1 ∷ 2 ∷ []) 2 written ≡ ok (pos 2) s')
    × ((entry s' 1).of_offset ≡ 2)
    × IsChanged written s' 0 name_a (some (1 ∷ 2 ∷ 9 ∷ []))
unfolding written two_handles tfs_write fresh tfs_open tfs_init find_from int_of_size
contents-tfs_write_example =
    contents-tfs_write written name_a 1 (1 ∷ 2 ∷ []) 2 (7 ∷ 8 ∷ 9 ∷ []) refl
      (session_state written-Reached) name_a-IsName written-IsOpenAs written-contents
      (inl (λ e. cc)) (omega arith) (omega arith)

contents-tfs_read_example :
    (s' : Fs) × (tfs_read (pos 1) 2 written ≡ ok (pos 2, 7 ∷ 8 ∷ []) s')
    × ((entry s' 1).of_offset ≡ 2)
    × ((t : List ℕ) → contents s' 0 t ≡ contents written 0 t)
unfolding written two_handles tfs_write fresh tfs_open tfs_init find_from int_of_size
contents-tfs_read_example =
    contents-tfs_read written name_a 1 2 (7 ∷ 8 ∷ 9 ∷ []) refl (session_state written-Reached)
      written-IsOpenAs written-contents

contents-tfs_open_new_example :
    (r : ℤ) × (s' : Fs) × (tfs_open (path_of name_b) tfs_o_creat written ≡ ok r s')
    × IsChanged written s' 0 name_b (some [])
unfolding written two_handles tfs_write fresh tfs_open tfs_init find_from int_of_size load_int
    is_entry_of
contents-tfs_open_new_example =
    contents-tfs_open_new written name_b tfs_o_creat 2 1 refl (session_state written-Reached)
      name_b-IsName refl refl refl refl

contents-tfs_open_example :
    (r : ℤ) × (s' : Fs) × (tfs_open (path_of name_a) tfs_o_trunc written ≡ ok r s')
    × IsChanged written s' 0 name_a (some [])
unfolding written tfs_write tfs_open tfs_init find_from int_of_size
contents-tfs_open_example =
    contents-tfs_open written name_a tfs_o_trunc (7 ∷ 8 ∷ 9 ∷ []) refl
      (session_state written-Reached) name_a-IsName written-contents

-- Both handles are closed.
quiet : Fs
unfolding written
quiet = final (tfs_close (pos 1) (final (tfs_close (pos 0) written)))

quiet-Reached : Reached fresh quiet
unfolding quiet written two_handles tfs_close tfs_write fresh tfs_open tfs_init find_from
    int_of_size
quiet-Reached =
    after (close_call (pos 1)) (pos 0, [])
      (after (close_call (pos 0)) (pos 0, []) written-Reached tt refl) tt refl

quiet-contents : contents quiet 0 name_a ≡ some (7 ∷ 8 ∷ 9 ∷ [])
unfolding quiet written two_handles tfs_close tfs_write fresh tfs_open tfs_init find_from
    int_of_size load_int is_entry_of
quiet-contents = refl

none_taken : (i : ℕ) → i < 4 → quiet.free_open_file_entries i ≡ taken → ⊥
unfolding quiet written two_handles tfs_close tfs_write fresh tfs_open tfs_init find_from
    int_of_size
none_taken i lt used = ground arith

contents-tfs_unlink_example :
    (s' : Fs) × (tfs_unlink (path_of name_a) quiet ≡ ok (pos 0) s')
    × IsChanged quiet s' 0 name_a none
    × Good s' 0
unfolding quiet written two_handles tfs_close tfs_write fresh tfs_open tfs_init find_from
    int_of_size
contents-tfs_unlink_example =
    contents-tfs_unlink quiet name_a (7 ∷ 8 ∷ 9 ∷ []) refl (session_state quiet-Reached)
      name_a-IsName quiet-contents (λ n p e here i lt used. absurd (none_taken i lt used))
