-- ===== src/Broker/Messages/Append.antt =====
-- What a round of pub_connect_request does to the file of a box.
use so_server_and_pipes.Base.{
  ℕ, ◌+◌, ◌^◌, ◌≤◌, ◌<◌, ◌≡◌, ap, ◌∙◌, false, some, List, [], ◌∷◌, arith, ltb, length, pos,
}
use so_server_and_pipes.Fs.Exec.{Fs, ok, free}
use so_server_and_pipes.Fs.Dir.{find_in_dir}
use so_server_and_pipes.Fs.Dir.Entries.{IsName}
use so_server_and_pipes.Fs.Ops.{slash, tfs_open, tfs_read, tfs_write, tfs_close, tfs_o_append}
use so_server_and_pipes.Fs.Ops.Handles.{node}
use so_server_and_pipes.Fs.Ops.Paths.{IsRooted}
use so_server_and_pipes.Fs.Ops.Create.{first_free_handle}
use so_server_and_pipes.Fs.Ops.Append.{IsStored, IsAppended}
use so_server_and_pipes.Fs.Ops.WriteEnd.{append_session}
use so_server_and_pipes.Os.{done}
use so_server_and_pipes.Broker.{Broker, name_of}
use so_server_and_pipes.Broker.Messages.{append_message, append_to, write_message}
use so_server_and_pipes.Task.{message_max_size}

write_message-eq :
    (b : Broker) (k : ℕ) (text : List ℕ) (s s' : Fs)
    → tfs_write (pos k) text (length text) b.fs ≡ ok (pos (length text)) s
    → tfs_close (pos k) s ≡ ok (pos 0) s'
    → write_message (pos k) text b ≡ done false (record b { fs = s' })
unfolding write_message
write_message-eq b k text s s' written closed = rw (written, closed)

append_to-eq :
    (b : Broker) (k : ℕ) (name text : List ℕ) (s₁ s₂ s₃ : Fs)
    → length text ≤ 1024
    → tfs_open (some name) tfs_o_append b.fs ≡ ok (pos k) s₁
    → tfs_read (pos k) message_max_size s₁ ≡ ok (pos 0, []) s₁
    → tfs_write (pos k) text (length text) s₁ ≡ ok (pos (length text)) s₂
    → tfs_close (pos k) s₂ ≡ ok (pos 0) s₃
    → append_to name text b ≡ done false (record b { fs = s₃ })
unfolding append_to
append_to-eq b k name text s₁ s₂ s₃ short opened read written closed =
    let fits : ltb 1024 (0 + length text) ≡ false = ground arith in
    rw (opened, read, fits) (write_message-eq (record b { fs = s₁ }) k text s₂ s₃ written closed)

-- A round of `pub_connect_request` puts the message of a publisher behind the bytes of the box's
-- file, in a new block if the file was empty, and closes the handle that it has opened; the loop
-- goes on. The file system is well formed, a handle is free, and the message fits into the block.
-- All blocks together have fewer than 2 ^ 64 bytes.
pub append_message-eq :
    (task : ℕ) (br : Broker) {b : ℕ} (n text : List ℕ) (p k c : ℕ)
    → name_of br task ≡ slash ∷ n
    → br.fs.library_mutex ≡ false
    → IsRooted br.fs b
    → IsName n
    → find_in_dir 0 n br.fs ≡ ok (pos p) br.fs
    → p < br.fs.fs_params.max_inode_count
    → first_free_handle br.fs ≡ some k
    → k < 2 ^ 31
    → br.fs.fs_params.block_size < 2 ^ 63
    → (node br.fs p).i_size + length text ≤ br.fs.fs_params.block_size
    → 0 < length text
    → length text ≤ 1024
    → IsStored br.fs p c
    → (s : Fs) × (append_message task text br ≡ done false (record br { fs = s }))
      × IsAppended br.fs s p c text
      × (s.free_open_file_entries k ≡ free)
unfolding append_message
append_message-eq task br n text p k c named free_mutex h name found exists handle small_handle
      small fits some_bytes short stored =
    let (s₁, s₂, s₃, opened, read, written, closed, appended, handle_free) =
      append_session n text p k c message_max_size free_mutex h name found exists handle
        small_handle small fits some_bytes stored in
    (
      s₃,
      ap (λ l. append_to l text br) named
          ∙ append_to-eq br k (slash ∷ n) text s₁ s₂ s₃ short opened read written closed,
      appended,
      handle_free,
    )
