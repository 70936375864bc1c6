-- ===== src/Fs/OpenFiles.antt =====
-- fs/state.c: the open file table. A pointer to an entry is its index in the table.
use so_server_and_pipes.Base.{
  ℕ, not, Option, none, some, if◌then◌else◌, update, ℤ, minus_one, int_of_size, find_below,
}
use so_server_and_pipes.Fs.Exec.{
  ok, Cmd, ◌>>=◌, ◌>>◌, get, put, always_assert, free, taken, is_free, index, valid_file_handle,
}

-- `add_to_open_file_table`; its loop counts in an `int`.
unfoldable pub add_to_open_file_table : ℤ → ℕ → Cmd ℤ
add_to_open_file_table inumber offset s =
    elim (find_below (λ i. is_free (s.free_open_file_entries i)) s.fs_params.max_open_files_count) [
      | none ↦ ok minus_one s
      | some i ↦ ok (int_of_size i) (record s {
        free_open_file_entries = update s.free_open_file_entries i taken;
        open_file_table =
            update s.open_file_table i (record { of_inumber = inumber; of_offset = offset });
      })
    ]

-- `remove_from_open_file_table`
unfoldable pub remove_from_open_file_table : ℤ → Cmd (Unit {0})
unfolding valid_file_handle
remove_from_open_file_table fhandle = do
  s ← get
  always_assert (valid_file_handle s fhandle)
  always_assert (not (is_free (s.free_open_file_entries (index fhandle))))
  put (record s { free_open_file_entries = update s.free_open_file_entries (index fhandle) free })

-- `get_open_file_entry`: `none` is NULL.
unfoldable pub get_open_file_entry : ℤ → Cmd (Option ℕ)
unfolding valid_file_handle
get_open_file_entry fhandle s =
    if not (valid_file_handle s fhandle)
    then ok none s
    else if is_free (s.free_open_file_entries (index fhandle))
    then ok none s
    else ok (some (index fhandle)) s
