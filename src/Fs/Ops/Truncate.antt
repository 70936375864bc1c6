-- ===== src/Fs/Ops/Truncate.antt =====
-- tfs_open of a file that exists, under TFS_O_TRUNC.
use so_server_and_pipes.Base.{
  ℕ, ◌^◌, ◌<◌, ◌≡◌, ap, ◌∙◌, Bool, true, false, some, List, arith, if◌then◌else◌, update, pos,
  lt→ltb, update_self,
}
use so_server_and_pipes.Fs.Exec.{Fs, ok, free, valid_inumber, valid_block_number}
use so_server_and_pipes.Fs.Blocks.{data_block_free}
use so_server_and_pipes.Fs.Inodes.{inode_get}
use so_server_and_pipes.Fs.Dir.{find_in_dir}
use so_server_and_pipes.Fs.Dir.Entries.{IsName}
use so_server_and_pipes.Fs.Dir.Lookup.{find_in_dir-value}
use so_server_and_pipes.Fs.Ops.{
  tfs_open, open_found, open_existing, truncate, has_flag, tfs_o_trunc, tfs_o_append,
}
use so_server_and_pipes.Fs.Ops.Handles.{held, held-HasBlock, HasBlock, node}
use so_server_and_pipes.Fs.Ops.Create.{first_free_handle, with_handle, finish_open-eq}
use so_server_and_pipes.Fs.Ops.Paths.{IsRooted, path_of, tfs_open-found}

-- The state after file `p` gives back its block `c`.
abbrev pub emptied : Fs → ℕ → ℕ → Fs
emptied s p c = record s {
  free_blocks = update s.free_blocks c free;
  inode_table = update s.inode_table p (record (node s p) { i_size = 0 });
}

pub truncate-eq :
    {s : Fs} {p c : ℕ} (mode : ℕ)
    → has_flag mode tfs_o_trunc ≡ true
    → 0 < (node s p).i_size
    → HasBlock s p c
    → truncate p mode s ≡ ok tt (emptied s p c)
unfolding truncate data_block_free valid_block_number
truncate-eq {s} {p} {c} mode cut some_bytes hb =
    rw (cut, lt→ltb 0 _ some_bytes, hb.block, lt→ltb c s.fs_params.max_block_count hb.valid)

start_at : (b : Bool) (n : ℕ) → n ≡ 0 → (if b then n else 0) ≡ 0
start_at b n e = ground arith

pub open_found-truncate :
    {s : Fs} {c : ℕ} (n : List ℕ) (mode p k : ℕ)
    → p < s.fs_params.max_inode_count
    → has_flag mode tfs_o_trunc ≡ true
    → 0 < (node s p).i_size
    → HasBlock s p c
    → first_free_handle s ≡ some k
    → k < 2 ^ 31
    → open_found 0 n mode (pos p) s ≡ ok (pos k) (with_handle (emptied s p c) k p 0)
unfolding open_found open_existing inode_get valid_inumber
open_found-truncate {s} {c} n mode p k exists cut some_bytes hb handle small =
    rw (lt→ltb p s.fs_params.max_inode_count exists, truncate-eq mode cut some_bytes hb)
      (finish_open-eq (emptied s p c) p k _ handle small
        ∙ ap (λ o. ok (pos k) (with_handle (emptied s p c) k p o))
            (start_at (has_flag mode tfs_o_append) _
              (ap (λ x. x.i_size) (update_self s.inode_table p _))))

-- `tfs_open` under TFS_O_TRUNC of a file that is not empty gives back its block, sets its size to
-- 0, and returns the first free entry of the open file table as a handle at its beginning. All
-- blocks together have fewer than 2 ^ 64 bytes.
pub tfs_open-truncate :
    {s : Fs} {b c : ℕ} (n : List ℕ) (mode p k : ℕ)
    → s.library_mutex ≡ false
    → IsRooted s b
    → IsName n
    → find_in_dir 0 n s ≡ ok (pos p) s
    → p < s.fs_params.max_inode_count
    → has_flag mode tfs_o_trunc ≡ true
    → 0 < (node s p).i_size
    → HasBlock s p c
    → first_free_handle s ≡ some k
    → k < 2 ^ 31
    → tfs_open (path_of n) mode s ≡ ok (pos k) (with_handle (emptied s p c) k p 0)
tfs_open-truncate {s} n mode p k free_mutex h name found exists cut some_bytes hb handle small =
    tfs_open-found h free_mutex n name.some_byte mode
    ∙ ap (λ v. open_found 0 n mode v (held s)) (find_in_dir-value n h.directory found)
    ∙ open_found-truncate n mode p k exists cut some_bytes (held-HasBlock hb) handle small
