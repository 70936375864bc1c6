-- ===== src/Fs/Ops/Close.antt =====
-- tfs_close, and the operations on a handle that is not open.
use so_server_and_pipes.Base.{
  arith, if◌then◌else◌, ◌==◌, Option, le→ltb, ◌≤◌, negsuc, negsuc, le→ltb, Option, ◌≤◌, ℕ, ◌≡◌,
  refl, ap, ◌⊎◌, inl, inr, false, none, List, [], update, ℤ, pos, minus_one, Bool-cases, lt→ltb,
  update_self,
}
use so_server_and_pipes.Fs.Exec.{and_then, Fs, ok, free, index, valid_file_handle}
use so_server_and_pipes.Fs.OpenFiles.{get_open_file_entry, remove_from_open_file_table}
use so_server_and_pipes.Fs.Ops.{
  tfs_close, tfs_write, tfs_read, close_found, write_found, read_found, unlock_return,
}
use so_server_and_pipes.Fs.Ops.Handles.{
  held, held-IsHandle, released, locked-free, IsHandle, get_open_file_entry-ok,
}

-- The number of a handle is below zero, or not below the number of entries.
abbrev pub IsOutOfRange : ℤ → ℕ → Type 0
IsOutOfRange (pos n) count = count ≤ n
IsOutOfRange (negsuc n) count = Unit {0}

-- A handle that is not open: its number is out of range, or its entry is free.
abbrev pub IsNoHandle : Fs → ℤ → Type 0
IsNoHandle s fhandle =
    IsOutOfRange fhandle s.fs_params.max_open_files_count
    ⊎ (s.free_open_file_entries (index fhandle) ≡ free)

valid_file_handle-out :
    (s : Fs) (fhandle : ℤ)
    → IsOutOfRange fhandle s.fs_params.max_open_files_count
    → valid_file_handle s fhandle ≡ false
unfolding valid_file_handle
valid_file_handle-out s (pos n) out = le→ltb _ _ out
valid_file_handle-out s (negsuc n) out = refl

get_open_file_entry-none :
    (s : Fs) (fhandle : ℤ) → IsNoHandle s fhandle → get_open_file_entry fhandle s ≡ ok none s
unfolding get_open_file_entry
get_open_file_entry-none s fhandle (inl out) = rw (valid_file_handle-out s fhandle out)
get_open_file_entry-none s fhandle (inr e) = elim (Bool-cases (valid_file_handle s fhandle)) [
  | inl v ↦ rw (v, e)
  | inr v ↦ rw v
]

tfs_read-held :
    (s : Fs) (fhandle : ℤ) (n : ℕ)
    → s.library_mutex ≡ false
    → tfs_read fhandle n s ≡ and_then (get_open_file_entry fhandle (held s)) (read_found n)
unfolding tfs_read
tfs_read-held s fhandle n free_mutex = rw free_mutex

-- `tfs_close`, `tfs_write` and `tfs_read`, called with the mutex free and with a handle that is below
-- zero, not below the size of the open file table, or whose entry is free, return -1 and change
-- nothing.
pub operations-no_handle :
    (s : Fs) (fhandle : ℤ) (buffer : List ℕ) (n : ℕ)
    → s.library_mutex ≡ false
    → IsNoHandle s fhandle
    → (tfs_close fhandle s ≡ ok minus_one s)
      × (tfs_write fhandle buffer n s ≡ ok minus_one s)
      × (tfs_read fhandle n s ≡ ok (minus_one, []) s)
unfolding tfs_close tfs_write close_found write_found read_found unlock_return valid_file_handle
operations-no_handle s fhandle buffer n free_mutex bad =
    let e = get_open_file_entry-none (held s) fhandle bad in
    let same = released s free_mutex in
    (
      rw (locked-free _ s free_mutex, e) (ap (ok minus_one) same),
      rw (locked-free _ s free_mutex, e) (ap (ok minus_one) same),
      rw (tfs_read-held s fhandle n free_mutex, e) (ap (ok (minus_one, [])) same),
    )

-- The state after handle `i` is closed.
abbrev pub closed : Fs → ℕ → Fs
closed s i = record s {
  free_open_file_entries = update s.free_open_file_entries i free;
  library_mutex = false;
}

pub remove-eq :
    {s : Fs} {i p : ℕ}
    → IsHandle s i p
    → remove_from_open_file_table (pos i) s
      ≡ ok tt (record s { free_open_file_entries = update s.free_open_file_entries i free })
unfolding remove_from_open_file_table valid_file_handle
remove-eq {s} {i} h = rw (lt→ltb i s.fs_params.max_open_files_count h.in_use, h.open_entry)

-- In `get_open_file_entry`, nothing but the entry that is freed counts as one that is not open.
get_open_file_entry-closed :
    (s : Fs) (i j : ℕ) (w : Option ℕ)
    → get_open_file_entry (pos j) s ≡ ok w s
    → get_open_file_entry (pos j) (closed s i) ≡ ok (if i == j then none else w) (closed s i)
unfolding get_open_file_entry valid_file_handle
get_open_file_entry-closed s i j w e = ground (arith, e)

-- `tfs_close` of an open handle, called with the mutex free, returns 0 and frees its entry of the
-- open file table: no operation takes the handle any more, and of any other number the lookup in the
-- table finds what it found before.
pub tfs_close-eq :
    {s : Fs} {i p : ℕ} (j : ℕ) (w : Option ℕ) (buffer : List ℕ) (n : ℕ)
    → s.library_mutex ≡ false
    → IsHandle s i p
    → get_open_file_entry (pos j) s ≡ ok w s
    → (tfs_close (pos i) s ≡ ok (pos 0) (closed s i))
      × (get_open_file_entry (pos j) (closed s i) ≡ ok (if i == j then none else w) (closed s i))
      × (tfs_close (pos i) (closed s i) ≡ ok minus_one (closed s i))
      × (tfs_write (pos i) buffer n (closed s i) ≡ ok minus_one (closed s i))
      × (tfs_read (pos i) n (closed s i) ≡ ok (minus_one, []) (closed s i))
unfolding tfs_close close_found unlock_return
tfs_close-eq {s} {i} j w buffer n free_mutex h looked_up =
    let (c, w', r) =
      operations-no_handle (closed s i) (pos i) buffer n refl
        (inr (update_self s.free_open_file_entries i free)) in
    (
      rw (
        locked-free _ s free_mutex,
        get_open_file_entry-ok (held-IsHandle h),
        remove-eq (held-IsHandle h),
      ),
      get_open_file_entry-closed s i j w looked_up,
      c,
      w',
      r,
    )
