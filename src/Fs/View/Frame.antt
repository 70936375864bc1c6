-- ===== src/Fs/View/Frame.antt =====
-- The bytes of a file after a write to it, and after a change elsewhere.
use so_server_and_pipes.Base.{
  ℕ, ◌+◌, ◌*◌, ◌≤◌, ◌≡◌, sym, ap, ◌∙◌, ◌≢◌, ◌⊎◌, inl, inr, List, [], arith, length, ℤ, pos,
}
use so_server_and_pipes.Fs.Exec.{Inode, index}
use so_server_and_pipes.Fs.Memory.{Bytes, write_bytes, read_bytes, Same}
use so_server_and_pipes.Fs.Memory.Frame.{write_bytes-Same, read_bytes-Same}
use so_server_and_pipes.Fs.Ops.Write.{grown}
use so_server_and_pipes.Fs.Ops.Isolation.{blocks_apart}
use so_server_and_pipes.Fs.View.{overwrite}
use so_server_and_pipes.Fs.View.Overwrite.{read_bytes-overwrite}

-- The bytes of an inode, in blocks of `size` bytes.
abbrev pub inode_bytes : Bytes → ℕ → Inode → List ℕ
inode_bytes m size nd = read_bytes m (index nd.i_data_block * size) nd.i_size

pub inode_bytes-empty :
    (m : Bytes) (size : ℕ) (nd : Inode) → nd.i_size ≡ 0 → inode_bytes m size nd ≡ []
inode_bytes-empty m size nd e = ap (read_bytes m (index nd.i_data_block * size)) e

pub inode_bytes-block :
    (m : Bytes) (size c : ℕ) (nd : Inode)
    → nd.i_data_block ≡ pos c
    → inode_bytes m size nd ≡ read_bytes m (c * size) nd.i_size
inode_bytes-block m size c nd e = ap (λ (x : ℤ). read_bytes m (index x * size) nd.i_size) e

-- An inode whose bytes are in block `c`, after bytes are written there.
pub inode_bytes-overwrite :
    (m : Bytes) (size c z off : ℕ) (bytes : List ℕ) (v : Inode)
    → v.i_data_block ≡ pos c
    → v.i_size ≡ grown z (off + length bytes)
    → off ≤ z
    → inode_bytes (write_bytes m (c * size + off) bytes) size v
      ≡ overwrite (read_bytes m (c * size) z) off bytes
inode_bytes-overwrite m size c z off bytes v block sizes le =
    inode_bytes-block _ size c v block
    ∙ ap (read_bytes (write_bytes m (c * size + off) bytes) (c * size)) sizes
    ∙ read_bytes-overwrite m (c * size) z off bytes le

-- An inode without bytes, or with its bytes in a block that memory has kept.
pub inode_bytes-kept :
    (m m' : Bytes) (size : ℕ) (nd : Inode)
    → (nd.i_size ≡ 0) ⊎ ((d : ℕ) × (nd.i_data_block ≡ pos d) × Same m' m (d * size) nd.i_size)
    → inode_bytes m' size nd ≡ inode_bytes m size nd
inode_bytes-kept m m' size nd (inl e) =
    inode_bytes-empty m' size nd e ∙ sym (inode_bytes-empty m size nd e)
inode_bytes-kept m m' size nd (inr (d, block, same)) =
    inode_bytes-block m' size d nd block
    ∙ read_bytes-Same m' m nd.i_size (d * size) same
    ∙ sym (inode_bytes-block m size d nd block)

-- A write within block `c` keeps the others.
pub write_bytes-other_block :
    (m : Bytes) (size c d off z : ℕ) (bytes : List ℕ)
    → c ≢ d
    → off + length bytes ≤ size
    → z ≤ size
    → Same (write_bytes m (c * size + off) bytes) m (d * size) z
write_bytes-other_block m size c d off z bytes ne fits le =
    write_bytes-Same m (c * size + off) bytes (d * size) z
      (omega (arith, blocks_apart c d size off (length bytes) 0 z ne fits (omega arith)))
