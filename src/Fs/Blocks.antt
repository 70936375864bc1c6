-- ===== src/Fs/Blocks.antt =====
-- fs/state.c: the data blocks.
use so_server_and_pipes.Base.{
  le→leb, arith, lt→ltb, ◌≤◌, leb, pos, ◌≡◌, ◌+◌, ◌^◌, mul_size, ◌<◌, ℕ, ◌*◌, none, some, update, ℤ,
  minus_one, int_of_size, find_below,
}
use so_server_and_pipes.Fs.Exec.{
  data_size, Sized, in_bounds, Fs, ok, Cmd, pure, ◌>>=◌, ◌>>◌, get, put, always_assert, free, taken,
  is_free, index, valid_block_number,
}

-- `data_block_alloc`
unfoldable pub data_block_alloc : Cmd ℤ
data_block_alloc s =
    elim (find_below (λ i. is_free (s.free_blocks i)) s.fs_params.max_block_count) [
      | none ↦ ok minus_one s
      | some i ↦ ok (int_of_size i) (record s { free_blocks = update s.free_blocks i taken })
    ]

-- `data_block_free`
unfoldable pub data_block_free : ℤ → Cmd (Unit {0})
unfolding valid_block_number
data_block_free block_number = do
  s ← get
  always_assert (valid_block_number s block_number)
  put (record s { free_blocks = update s.free_blocks (index block_number) free })

-- `data_block_get`: the address of the block's first byte in `fs_data`, a product that wraps. A
-- block that is not inside `fs_data` is an access outside it already here.
unfoldable pub data_block_get : ℤ → Cmd ℕ
unfolding valid_block_number
data_block_get block_number = do
  s ← get
  always_assert (valid_block_number s block_number)
  let address = mul_size (index block_number) s.fs_params.block_size
  in_bounds (leb (address + s.fs_params.block_size) (data_size s))
  pure address

-- A block ends where the blocks end, or before.
pub block_below : (b c size : ℕ) → b < c → b * size + size ≤ c * size
block_below b c size h = grind arith

mul_size-eq : (a b : ℕ) → a * b < 2 ^ 64 → mul_size a b ≡ a * b
mul_size-eq a b h = omega arith

-- A file system of fewer than 2 ^ 64 bytes has all its bytes in `fs_data`.
pub data_size-Sized :
    (s : Fs)
    → Sized s.fs_params
    → data_size s ≡ s.fs_params.max_block_count * s.fs_params.block_size
data_size-Sized s sized = mul_size-eq _ _ sized

-- The block is where the product says that does not wrap.
pub data_block_get-pos :
    (s : Fs) (b : ℕ)
    → b < s.fs_params.max_block_count
    → Sized s.fs_params
    → data_block_get (pos b) s ≡ ok (b * s.fs_params.block_size) s
unfolding data_block_get valid_block_number
data_block_get-pos s b valid sized =
    let below = block_below b s.fs_params.max_block_count s.fs_params.block_size valid in
    rw (
      lt→ltb _ _ valid,
      mul_size-eq b s.fs_params.block_size (omega (arith, below, sized)),
      data_size-Sized s sized,
      le→leb _ _ below,
    )
