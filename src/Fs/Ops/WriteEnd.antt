-- ===== src/Fs/Ops/WriteEnd.antt =====
-- tfs_write at the end of a file, and the four calls by which the broker puts a message into a box.
use so_server_and_pipes.Base.{
  ℕ, ◌+◌, ◌*◌, ◌^◌, ◌≤◌, ◌<◌, ◌≡◌, refl, sym, ap, ◌∙◌, inl, inr, false, some, List, [], ◌++◌, arith,
  length, take, pos, take-length, update_self, min,
}
use so_server_and_pipes.Base.{subst}
use so_server_and_pipes.Fs.Memory.{read_bytes}
use so_server_and_pipes.Fs.Exec.{Fs, ok, free}
use so_server_and_pipes.Fs.Dir.{find_in_dir}
use so_server_and_pipes.Fs.Dir.Entries.{IsName}
use so_server_and_pipes.Fs.Ops.{tfs_open, tfs_read, tfs_write, tfs_close, tfs_o_append}
use so_server_and_pipes.Fs.Ops.Handles.{entry, node, IsHandle}
use so_server_and_pipes.Fs.Ops.Paths.{IsRooted, path_of}
use so_server_and_pipes.Fs.Ops.Create.{first_free_handle, with_handle}
use so_server_and_pipes.Fs.Ops.Unlink.{tfs_open-existing}
use so_server_and_pipes.Fs.Ops.Close.{closed}
use so_server_and_pipes.Fs.Ops.Write.{after_write, tfs_write-eq, room}
use so_server_and_pipes.Fs.Ops.WriteNew.{tfs_write-new, with_block}
use so_server_and_pipes.Fs.Ops.Append.{
  IsStored, IsAppended, after_write-IsAppended, after_write_self, with_handle-IsHandle,
  tfs_read-at_end, tfs_close-done,
}

with_block-IsAppended :
    {s s' : Fs} {p c : ℕ} {text : List ℕ}
    → IsAppended (with_block s p c) s' p c text
    → IsAppended s s' p c text
with_block-IsAppended {s} {s'} {p} {c} {text} h =
    let same =
      ap (λ x. x.i_size)
        (update_self s.inode_table p (record (node s p) { i_data_block = pos c })) in
    let a = c * s.fs_params.block_size in
    record {
      size = h.size ∙ ap (λ z. z + length text) same;
      bytes =
          subst (λ z. read_bytes s'.fs_data a (z + length text) ≡ read_bytes s.fs_data a z ++ text)
            same h.bytes;
      block = h.block;
      free_mutex = h.free_mutex;
    }

all_of_it :
    (w : Fs) (i p c v : ℕ) (text : List ℕ)
    → v ≡ length text
    → ok (pos v) (after_write w i p c (take v text))
      ≡ ok (pos (length text)) (after_write w i p c text)
all_of_it w i p c v text e =
    ap (λ n. ok (pos n) (after_write w i p c (take n text))) e
    ∙ ap (λ l. ok (pos (length text)) (after_write w i p c l)) (take-length text)

module _ {s : Fs} {i p c : ℕ} (text : List ℕ) (free_mutex : s.library_mutex ≡ false)
    (h : IsHandle s i p) (at : (entry s i).of_offset ≡ (node s p).i_size)
    (some_bytes : 0 < length text)
    (fits : (node s p).i_size + length text ≤ s.fs_params.block_size) where
  pub tfs_write-at_end :
      IsStored s p c
      → (s' : Fs) × (tfs_write (pos i) text (length text) s ≡ ok (pos (length text)) s')
        × IsAppended s s' p c text
        × IsHandle s' i p
  tfs_write-at_end (inl (ne, hb)) =
      let all : min (length text) (room s i) ≡ length text = omega (arith, at, fits) in
      (
        after_write s i p c text,
        tfs_write-eq text (length text) free_mutex h hb ne (omega arith)
              (omega (arith, fits, h.small)) (omega (arith, all, some_bytes))
            ∙ all_of_it s i p c (min (length text) (room s i)) text all,
        after_write-IsAppended text h at some_bytes hb.block,
        after_write_self c text h (omega (arith, at, fits)),
      )
  tfs_write-at_end (inr (empty, found, counts, sized)) =
      let all : min (length text) (room s i) ≡ length text = omega (arith, at, fits) in
      let w = with_block s p c in
      let h' : IsHandle w i p = record {
        in_use = h.in_use;
        open_entry = h.open_entry;
        file = h.file;
        exists = h.exists;
        offset_in = h.offset_in;
        small = h.small;
      } in
      let node' = update_self s.inode_table p (record (node s p) { i_data_block = pos c }) in
      (
        after_write w i p c text,
        tfs_write-new text (length text) free_mutex h (omega (arith, fits, h.small)) c empty found
              counts sized (omega arith) (omega (arith, all, some_bytes))
            ∙ all_of_it w i p c (min (length text) (room s i)) text all,
        with_block-IsAppended (
            after_write-IsAppended text h' (at ∙ sym (ap (λ x. x.i_size) node')) some_bytes
              (ap (λ x. x.i_data_block) node')),
        after_write_self c text h' (omega (arith, at, fits)),
      )

-- The four calls for one message: it goes behind the bytes of the file, and the handle is free again.
pub append_session :
    {s : Fs} {b : ℕ} (n text : List ℕ) (p k c len : ℕ)
    → s.library_mutex ≡ false
    → IsRooted s b
    → IsName n
    → find_in_dir 0 n s ≡ ok (pos p) s
    → p < s.fs_params.max_inode_count
    → first_free_handle s ≡ some k
    → k < 2 ^ 31
    → s.fs_params.block_size < 2 ^ 63
    → (node s p).i_size + length text ≤ s.fs_params.block_size
    → 0 < length text
    → IsStored s p c
    → (s₁ : Fs) × (s₂ : Fs) × (s₃ : Fs) × (tfs_open (path_of n) tfs_o_append s ≡ ok (pos k) s₁)
      × (tfs_read (pos k) len s₁ ≡ ok (pos 0, []) s₁)
      × (tfs_write (pos k) text (length text) s₁ ≡ ok (pos (length text)) s₂)
      × (tfs_close (pos k) s₂ ≡ ok (pos 0) s₃)
      × IsAppended s s₃ p c text
      × (s₃.free_open_file_entries k ≡ free)
append_session {s} n text p k c len free_mutex h name found exists handle small_handle small fits
      some_bytes stored =
    let z = (node s p).i_size in
    let s₁ = with_handle s k p z in
    let opened = with_handle-IsHandle s p k z handle exists (omega (arith, fits)) small in
    let at : (entry s₁ k).of_offset ≡ z =
      ap (λ e. e.of_offset)
        (update_self s.open_file_table k (record { of_inumber = pos p; of_offset = z })) in
    let (s₂, written, appended, still) =
      tfs_write-at_end {s = s₁} {i = k} {p = p} {c = c} text refl opened at some_bytes fits
        (stored' stored) in
    (
      s₁,
      s₂,
      closed s₂ k,
      tfs_open-existing n tfs_o_append p k free_mutex h name found exists refl handle small_handle,
      tfs_read-at_end len refl opened at,
      written,
      tfs_close-done appended.free_mutex still,
      record {
        size = appended.size;
        bytes = appended.bytes;
        block = appended.block;
        free_mutex = refl;
      },
      update_self s₂.free_open_file_entries k free,
    )
  where
    stored' : IsStored s p c → IsStored (with_handle s k p (node s p).i_size) p c
    stored' (inl (ne, hb)) =
        inl (ne, record { block = hb.block; valid = hb.valid; sized = hb.sized })
    stored' (inr (empty, first, counts, sized)) = inr (empty, first, counts, sized)
