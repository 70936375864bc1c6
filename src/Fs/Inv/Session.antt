-- ===== src/Fs/Inv/Session.antt =====
-- Any sequence of calls of fs/operations.c after tfs_init.
use so_server_and_pipes.Base.{
  ℕ, ◌^◌, ◌≤◌, ◌<◌, ◌≡◌, sym, ap, ◌∙◌, true, false, Option, some, List, [], length, ℤ, pos,
}
use so_server_and_pipes.Base.{subst}
use so_server_and_pipes.Fs.Exec.{Fs, Params, ok, Run, Cmd, ◌>>=◌}
use so_server_and_pipes.Fs.Exec.{pure}
use so_server_and_pipes.Fs.Setup.{Mallocs, tfs_init}
use so_server_and_pipes.Fs.Ops.{
  tfs_open, tfs_close, tfs_write, tfs_read, tfs_unlink, has_flag, tfs_o_trunc,
}
use so_server_and_pipes.Fs.Inv.{Good}
use so_server_and_pipes.Fs.Inv.Returns.{Returns, tfs_close-Returns}
use so_server_and_pipes.Fs.Inv.Paths.{IsPath, Unopened}
use so_server_and_pipes.Fs.Inv.Unlink.{tfs_unlink-Returns}
use so_server_and_pipes.Fs.Inv.Write.{tfs_write-Returns}
use so_server_and_pipes.Fs.Inv.Read.{tfs_read-Returns}
use so_server_and_pipes.Fs.Inv.Start.{IsFresh, tfs_init-Good, tfs_open-Returns}

-- A call, with its arguments.
pub data Call : Type 0 where
  open_call : Option (List ℕ) → ℕ → Call
  close_call : ℤ → Call
  write_call : ℤ → List ℕ → ℕ → Call
  read_call : ℤ → ℕ → Call
  unlink_call : Option (List ℕ) → Call

-- The call returns a number and puts no bytes into a buffer.
abbrev pub no_bytes : Cmd ℤ → Cmd (ℤ × List ℕ)
no_bytes c = do r ← c; pure (r, [])

abbrev pub run : Call → Cmd (ℤ × List ℕ)
run (open_call path mode) = no_bytes (tfs_open path mode)
run (close_call fhandle) = no_bytes (tfs_close fhandle)
run (write_call fhandle buffer n) = no_bytes (tfs_write fhandle buffer n)
run (read_call fhandle len) = tfs_read fhandle len
run (unlink_call path) = no_bytes (tfs_unlink path)

-- What a caller has to see to: that a buffer holds the bytes to write, that a path name is a C
-- string, and that no handle is open on a file that is truncated or unlinked.
abbrev pub Allowed : ℕ → Call → Fs → Type 0
Allowed b (open_call path mode) s =
    IsPath path × (has_flag mode tfs_o_trunc ≡ true → Unopened s b path)
Allowed b (close_call fhandle) s = Unit {0}
Allowed b (write_call fhandle buffer n) s = (n ≤ length buffer) × (n < 2 ^ 63)
Allowed b (read_call fhandle len) s = Unit {0}
Allowed b (unlink_call path) s = IsPath path × Unopened s b path

-- The states that allowed calls lead to from state `s₀`.
pub data Reached (s₀ : Fs) : Fs → Type 0 where
  start : Reached s₀ s₀
  after :
      {s s' : Fs} (c : Call) (r : ℤ × List ℕ)
      → Reached s₀ s
      → Allowed 0 c s
      → run c s ≡ ok r s'
      → Reached s₀ s'

no_bytes-Returns : (b : ℕ) (c : Cmd ℤ) (s : Fs) → Returns b (c s) → Returns b (no_bytes c s)
no_bytes-Returns b c s (r, s', e, free_mutex, g) = ((r, []), s', rw e, free_mutex, g)

-- An allowed call returns and keeps the invariant.
pub run-Returns :
    (c : Call) (s : Fs) {b : ℕ}
    → s.library_mutex ≡ false
    → Good s b
    → Allowed b c s
    → Returns b (run c s)
run-Returns (open_call path mode) s {b} free_mutex g (is_path, closed) =
    no_bytes-Returns b (tfs_open path mode) s
      (tfs_open-Returns s path mode free_mutex g is_path closed)
run-Returns (close_call fhandle) s {b} free_mutex g allowed =
    no_bytes-Returns b (tfs_close fhandle) s (tfs_close-Returns s g fhandle free_mutex)
run-Returns (write_call fhandle buffer n) s {b} free_mutex g (enough, small) =
    no_bytes-Returns b (tfs_write fhandle buffer n) s
      (tfs_write-Returns s fhandle buffer n free_mutex g enough small)
run-Returns (read_call fhandle len) s {b} free_mutex g allowed =
    tfs_read-Returns s g len free_mutex fhandle
run-Returns (unlink_call path) s {b} free_mutex g (is_path, closed) =
    no_bytes-Returns b (tfs_unlink path) s (tfs_unlink-Returns s path free_mutex g is_path closed)

-- A run that returns has one final state.
final_state :
    {s' : Fs} {b : ℕ} {r : ℤ × List ℕ} {m : Run (ℤ × List ℕ)}
    → m ≡ ok r s'
    → Returns b m
    → (s'.library_mutex ≡ false) × Good s' b
final_state {s'} {b} e (r', t, e', free_mutex, g) =
    let same : t ≡ s' = cc in
    (ap (λ (x : Fs). x.library_mutex) (sym same) ∙ free_mutex, subst (λ (x : Fs). Good x b) same g)

-- Every state that allowed calls lead to satisfies the invariant, and has the mutex free.
pub Reached-Good :
    {s₀ s : Fs}
    → s₀.library_mutex ≡ false
    → Good s₀ 0
    → Reached s₀ s
    → (s.library_mutex ≡ false) × Good s 0
Reached-Good free_mutex g start = (free_mutex, g)
Reached-Good free_mutex g (after {s} {s'} c r reached allowed e) =
    let (released, g') = Reached-Good free_mutex g reached in
    final_state e (run-Returns c s released g' allowed)

-- After `tfs_init` on a state that is not allocated, with a free mutex, where malloc succeeds and
-- returns memory in which each name of block 0 begins with a NUL, there is room for an inode and a
-- block, the tables have at most 2 ^ 31 entries, and all blocks together have fewer than 2 ^ 64 bytes
-- and one fewer than 2 ^ 63, and after any allowed calls with any results, the invariant holds: the
-- root directory is well formed, its names lead to the files in use, one to each; each file's bytes
-- are in an allocated block of its own, and no other block is allocated but the directory's; each
-- open handle is on a file in use, at an offset within it. An allowed call returns then: it fails no
-- assertion, accesses no byte outside the tables, and does not wait for the mutex.
pub session-Good :
    {s₀ s : Fs} (a : Mallocs) (params : Params) (z : Fs) (c : Call)
    → IsFresh a params z
    → tfs_init a (some params) z ≡ ok (pos 0) s₀
    → Reached s₀ s
    → Allowed 0 c s
    → Good s 0 × ((r : ℤ × List ℕ) × (s' : Fs) × (run c s ≡ ok r s') × Reached s₀ s')
session-Good {s₀} {s} a params z c fresh init reached allowed =
    let (t, e, free_mutex, g) = tfs_init-Good a params z fresh in
    let (released, g') =
      Reached-Good (begins t e free_mutex g).0 (begins t e free_mutex g).1 reached in
    let (r, s', returns, m, g'') = run-Returns c s released g' allowed in
    (g', (r, s', returns, after c r reached allowed returns))
  where
    begins :
        (t : Fs)
        → tfs_init a (some params) z ≡ ok (pos 0) t
        → t.library_mutex ≡ false
        → Good t 0
        → (s₀.library_mutex ≡ false) × Good s₀ 0
    begins t e free_mutex g =
        let same : t ≡ s₀ = cc in
        (
          ap (λ (x : Fs). x.library_mutex) (sym same) ∙ free_mutex,
          subst (λ (x : Fs). Good x 0) same g,
        )
