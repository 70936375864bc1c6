-- ===== src/Fs/Ops/Append.antt =====
-- Opening a file under TFS_O_APPEND, reading, writing and closing it.
use so_server_and_pipes.Base.{
  ◌-◌, min, ℕ, zero, suc, ◌+◌, ◌*◌, ◌^◌, ◌≤◌, ◌<◌, ◌≡◌, refl, ap, ◌∙◌, ◌≢◌, ◌⊎◌, inl, false, some,
  List, [], ◌∷◌, ◌++◌, arith, length, pos, ssize_of_size, update_self,
}
use so_server_and_pipes.Base.{find_below-some}
use so_server_and_pipes.Fs.Memory.{Bytes, write_bytes, read_bytes}
use so_server_and_pipes.Fs.Memory.Frame.{write_bytes-Same, read_bytes-Same}
use so_server_and_pipes.Fs.Memory.RoundTrip.{read_bytes-write_bytes}
use so_server_and_pipes.Fs.Exec.{Sized, Fs, ok, taken}
use so_server_and_pipes.Fs.Ops.{
  tfs_read, tfs_close, close_found, read_found, read_entry, clip_read, unlock_return,
}
use so_server_and_pipes.Fs.Ops.Handles.{
  entry, node, IsHandle, HasBlock, held-IsHandle, locked-free, get_open_file_entry-ok, inode_get-ok,
}
use so_server_and_pipes.Fs.Ops.Create.{first_free_handle, with_handle}
use so_server_and_pipes.Fs.Ops.Read.{clip_read-eq}
use so_server_and_pipes.Fs.Ops.Close.{closed, remove-eq}
use so_server_and_pipes.Fs.Ops.Write.{grown, after_write}
use so_server_and_pipes.Fs.Ops.WriteNew.{first_free}

pub read_bytes-plus :
    (m : Bytes) (j k a : ℕ) → read_bytes m a (j + k) ≡ read_bytes m a j ++ read_bytes m (a + j) k
read_bytes-plus m zero k a =
    let none_before : 0 + k ≡ k = omega arith in
    let here : a ≡ a + 0 = omega arith in
    ap (λ z. read_bytes m a z) none_before ∙ ap (λ z. read_bytes m z k) here
read_bytes-plus m (suc j) k a =
    let more : suc j + k ≡ suc (j + k) = omega arith in
    let at : a + 1 + j ≡ a + suc j = omega arith in
    ap (λ z. read_bytes m a z) more
    ∙ ap (λ l. m a ∷ l)
        (read_bytes-plus m j k (a + 1) ∙ ap (λ z. read_bytes m (a + 1) j ++ read_bytes m z k) at)

-- What is written behind `z` bytes is read behind them.
pub read_bytes-appended :
    (m : Bytes) (a z : ℕ) (text : List ℕ)
    → read_bytes (write_bytes m (a + z) text) a (z + length text) ≡ read_bytes m a z ++ text
read_bytes-appended m a z text =
    let m' = write_bytes m (a + z) text in
    read_bytes-plus m' z (length text) a
    ∙ ap (λ l. l ++ read_bytes m' (a + z) (length text))
        (read_bytes-Same m' m z a (write_bytes-Same m (a + z) text a z (inl (omega arith))))
    ∙ ap (λ l. read_bytes m a z ++ l) (read_bytes-write_bytes m (a + z) text)

-- `tfs_read` with nothing to read returns 0 and changes nothing.
pub tfs_read-none :
    {s : Fs} {i p : ℕ} (len : ℕ)
    → s.library_mutex ≡ false
    → IsHandle s i p
    → (entry s i).of_offset ≤ (node s p).i_size
    → (node s p).i_size < 2 ^ 63
    → min len ((node s p).i_size - (entry s i).of_offset) ≡ 0
    → tfs_read (pos i) len s ≡ ok (pos 0, []) (record s { library_mutex = false })
unfolding tfs_read read_found read_entry unlock_return ssize_of_size
tfs_read-none {s} {i} {p} len free_mutex h inside small zero_left =
    let nothing : clip_read (node s p).i_size (entry s i).of_offset len ≡ 0 =
      clip_read-eq (node s p).i_size (entry s i).of_offset len inside small ∙ zero_left in
    rw (
      free_mutex,
      get_open_file_entry-ok (held-IsHandle h),
      inode_get-ok (held-IsHandle h),
      nothing,
    )

-- So does `tfs_read` at the end of the file.
pub tfs_read-at_end :
    {s : Fs} {i p : ℕ} (len : ℕ)
    → s.library_mutex ≡ false
    → IsHandle s i p
    → (entry s i).of_offset ≡ (node s p).i_size
    → tfs_read (pos i) len s ≡ ok (pos 0, []) (record s { library_mutex = false })
tfs_read-at_end len free_mutex h at =
    tfs_read-none len free_mutex h (omega (arith, at)) (omega (arith, at, h.offset_in, h.small))
      (omega (arith, at))

pub tfs_close-done :
    {s : Fs} {i p : ℕ}
    → s.library_mutex ≡ false
    → IsHandle s i p
    → tfs_close (pos i) s ≡ ok (pos 0) (closed s i)
unfolding tfs_close close_found unlock_return
tfs_close-done {s} free_mutex h = rw (
  locked-free _ s free_mutex,
  get_open_file_entry-ok (held-IsHandle h),
  remove-eq (held-IsHandle h),
)

pub with_handle-IsHandle :
    (s : Fs) (p k offset : ℕ)
    → first_free_handle s ≡ some k
    → p < s.fs_params.max_inode_count
    → offset ≤ s.fs_params.block_size
    → s.fs_params.block_size < 2 ^ 63
    → IsHandle (with_handle s k p offset) k p
with_handle-IsHandle s p k offset found exists within small = record {
  in_use = (find_below-some _ _ k found).below;
  open_entry = update_self s.free_open_file_entries k taken;
  file = ap (λ e. e.of_inumber) (update_self s.open_file_table k _);
  exists = exists;
  offset_in = omega (
    arith,
    within,
    ap (λ e. e.of_offset)
        (update_self s.open_file_table k (record { of_inumber = pos p; of_offset = offset })),
  );
  small = small;
}

pub after_write_self :
    {s : Fs} {i p : ℕ} (b : ℕ) (bytes : List ℕ)
    → IsHandle s i p
    → (entry s i).of_offset + length bytes ≤ s.fs_params.block_size
    → IsHandle (after_write s i p b bytes) i p
after_write_self {s} {i} b bytes h fits =
    let moved =
      update_self s.open_file_table i
        (record (entry s i) { of_offset = (entry s i).of_offset + length bytes }) in
    record {
      in_use = h.in_use;
      open_entry = h.open_entry;
      file = ap (λ e. e.of_inumber) moved ∙ h.file;
      exists = h.exists;
      offset_in = omega (arith, fits, ap (λ e. e.of_offset) moved);
      small = h.small;
    }

-- Block `c` is where a write to file `p` goes: its block, or the first free one if it is empty.
abbrev pub IsStored : Fs → ℕ → ℕ → Type 0
IsStored s p c =
    (((node s p).i_size ≢ 0) × HasBlock s p c)
    ⊎ (((node s p).i_size ≡ 0)
        × (first_free s ≡ some c)
        × (s.fs_params.max_block_count ≤ 2 ^ 31)
        × Sized s.fs_params)

-- What holds after `text` is written behind the bytes of file `p`, in block `c`.
pub record IsAppended (s s' : Fs) (p c : ℕ) (text : List ℕ) : Type 0 where
  pub size : (node s' p).i_size ≡ (node s p).i_size + length text
  pub bytes :
      read_bytes s'.fs_data (c * s.fs_params.block_size) ((node s p).i_size + length text)
      ≡ read_bytes s.fs_data (c * s.fs_params.block_size) (node s p).i_size ++ text
  pub block : (node s' p).i_data_block ≡ pos c
  pub free_mutex : s'.library_mutex ≡ false

module _ {s : Fs} {i p c : ℕ} (text : List ℕ) (h : IsHandle s i p)
    (at : (entry s i).of_offset ≡ (node s p).i_size) (some_bytes : 0 < length text) where
  pub after_write-IsAppended :
      (node s p).i_data_block ≡ pos c → IsAppended s (after_write s i p c text) p c text
  after_write-IsAppended block =
      let z = (node s p).i_size in
      let node' = record (node s p) { i_size = grown z ((entry s i).of_offset + length text) } in
      let written = update_self s.inode_table p node' in
      let sum : grown z ((entry s i).of_offset + length text) ≡ z + length text = ground arith in
      record {
        size = ap (λ x. x.i_size) written ∙ sum;
        bytes =
            ap
              (λ o.
                read_bytes (write_bytes s.fs_data (c * s.fs_params.block_size + o) text)
                  (c * s.fs_params.block_size) (z + length text))
              at
            ∙ read_bytes-appended s.fs_data (c * s.fs_params.block_size) z text;
        block = ap (λ x. x.i_data_block) written ∙ block;
        free_mutex = refl;
      }
