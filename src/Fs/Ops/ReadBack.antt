-- ===== src/Fs/Ops/ReadBack.antt =====
-- tfs_read after tfs_write.
use so_server_and_pipes.Base.{
  ℕ, ◌+◌, ◌*◌, ◌^◌, ◌≤◌, ◌<◌, ◌≡◌, refl, sym, ap, ◌∙◌, ◌≢◌, false, Option, none, some, List, arith,
  length, take, pos, length-take, update_self, update-ne, min,
}
use so_server_and_pipes.Fs.Memory.RoundTrip.{read_bytes-write_bytes}
use so_server_and_pipes.Fs.Exec.{Fs, Run, ok, panic, fault, blocked}
use so_server_and_pipes.Fs.Ops.{tfs_read, tfs_write}
use so_server_and_pipes.Fs.Ops.Handles.{entry, node, IsHandle, HasBlock}
use so_server_and_pipes.Fs.Ops.Write.{room, after_write, tfs_write-eq, grown}
use so_server_and_pipes.Fs.Ops.Read.{bytes_at, tfs_read-all}

-- What a run returns, without its final state.
abbrev pub value {ℓ} : {A : Type ℓ} → Run A → Option A
value (ok a s) = some a
value panic = none
value fault = none
value blocked = none

module _ {s : Fs} {i j p b : ℕ} (bytes : List ℕ) (h : IsHandle s j p) (hb : HasBlock s p b)
    (apart : i ≢ j) where
  after_write-entry : entry (after_write s i p b bytes) j ≡ entry s j
  after_write-entry = update-ne s.open_file_table i _ j apart

  after_write-IsHandle : IsHandle (after_write s i p b bytes) j p
  after_write-IsHandle = record {
    in_use = h.in_use;
    open_entry = h.open_entry;
    file = ap (λ e. e.of_inumber) after_write-entry ∙ h.file;
    exists = h.exists;
    offset_in = omega (arith, ap (λ e. e.of_offset) after_write-entry, h.offset_in);
    small = h.small;
  }

  after_write-HasBlock : HasBlock (after_write s i p b bytes) p b
  after_write-HasBlock = record {
    block = ap (λ x. x.i_data_block) (update_self s.inode_table p _) ∙ hb.block;
    valid = hb.valid;
    sized = hb.sized;
  }

  after_write-size :
      (node (after_write s i p b bytes) p).i_size
      ≡ grown (node s p).i_size ((entry s i).of_offset + length bytes)
  after_write-size = ap (λ x. x.i_size) (update_self s.inode_table p _)

  after_write-bytes :
      (entry s j).of_offset ≡ (entry s i).of_offset
      → bytes_at (after_write s i p b bytes) j b (length bytes) ≡ bytes
  after_write-bytes same =
      rw (after_write-entry, same)
        (read_bytes-write_bytes s.fs_data (b * s.fs_params.block_size + (entry s i).of_offset)
          bytes)

-- The bytes that `tfs_write` writes through one handle are the bytes that `tfs_read` returns
-- through another handle on the same file that stood at the same offset. All blocks together have
-- fewer than 2 ^ 64 bytes, and one fewer than 2 ^ 63.
pub tfs_read-tfs_write :
    {s : Fs} {i j p b : ℕ} (buffer : List ℕ) (n : ℕ)
    → s.library_mutex ≡ false
    → IsHandle s i p
    → IsHandle s j p
    → i ≢ j
    → (entry s j).of_offset ≡ (entry s i).of_offset
    → HasBlock s p b
    → (node s p).i_size ≢ 0
    → (node s p).i_size ≤ s.fs_params.block_size
    → n ≤ length buffer
    → n < 2 ^ 63
    → 0 < min n (room s i)
    → let m = min n (room s i) in
      (s' : Fs) × (tfs_write (pos i) buffer n s ≡ ok (pos m) s')
      × (value (tfs_read (pos j) m s') ≡ some (pos m, take m buffer))
tfs_read-tfs_write {s} {i} {j} {p} {b} buffer n free_mutex hi hj apart same hb ne fits enough small
      some_bytes =
    (
      s',
      tfs_write-eq buffer n free_mutex hi hb ne enough small some_bytes,
      ap value (
            tfs_read-all m refl (after_write-IsHandle bytes hj hb apart)
              (after_write-HasBlock bytes hj hb apart)
              (omega (arith, offset_kept, size_grown, whole, hi.offset_in))
              (omega (arith, size_grown, whole, fits, hi.offset_in)) some_bytes)
          ∙ ap (λ bs. some (pos m, bs))
              (ap (bytes_at s' j b) (sym whole) ∙ after_write-bytes bytes hj hb apart same),
    )
  where
    m : ℕ
    m = min n (room s i)

    bytes : List ℕ
    bytes = take m buffer

    s' : Fs
    s' = after_write s i p b bytes

    whole : length bytes ≡ m
    whole = length-take m buffer (omega arith)

    offset_kept : (entry s' j).of_offset ≡ (entry s i).of_offset
    offset_kept = ap (λ e. e.of_offset) (after_write-entry bytes hj hb apart) ∙ same

    size_grown :
        ((entry s i).of_offset + length bytes ≤ (node s' p).i_size)
        × ((node s' p).i_size ≤ (node s p).i_size + ((entry s i).of_offset + length bytes))
        × ((node s' p).i_size ≤ s.fs_params.block_size)
    size_grown = rw (after_write-size bytes hj hb apart) (ground (arith, whole, fits, hi.offset_in))
