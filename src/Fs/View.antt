-- ===== src/Fs/View.antt =====
-- The abstract view of the file system of fs/operations.c: names to the bytes of their files.
pub mod Overwrite
pub mod Frame
pub mod Write
pub mod Refine
pub mod Read
pub mod Unlink
pub mod Open
pub mod Create
use so_server_and_pipes.Base.{
  ℕ, zero, suc, ◌+◌, ◌-◌, ◌*◌, ◌/◌, ◌%◌, ◌^◌, ◌≤◌, ◌<◌, ◌≡◌, refl, sym, ap, ◌∙◌, ◌≢◌, ◌⊎◌, inl, inr,
  Bool, true, false, not, ◌&&◌, ◌||◌, Option, none, some, List, [], ◌∷◌, ◌++◌, arith, ltb, leb,
  ◌==◌, if◌then◌else◌, length, get_or, take, replicate, update, ℤ, pos, negsuc, minus_one,
  is_minus_one, int_of_size, ssize_of_size, find_below, find_from, Finds, IsFirst, find_below-Finds,
  find_from-Finds, find_from-first, find_from-none, Bool-cases, Option-cases, tests, ==→eq, ==→ne,
  eq→==, ne→==, ltb→lt, ltb→le, lt→ltb, le→ltb, length-append, length-replicate, length-take,
  take-length, get_or-append_left, get_or-append_right, get_or-replicate, IsInt, signed32,
  unsigned32, signed32-unsigned32, int_of_size-pos, ssize_of_size-pos, update_self, update-ne, min,
  codes,
}
use so_server_and_pipes.Base.{subst, find_below-some, find_below-none}
use native.Mathlib.Decide.{ℕ_discrete, dec_lt, dec_le}
use so_server_and_pipes.Fs.Exec.{
  Fs, Params, Inode, OpenFileEntry, AllocationState, taken, free, is_free, t_directory, t_file, ok,
  Run, Cmd, and_then, ◌>>=◌, ◌>>◌, index,
}
use so_server_and_pipes.Fs.Memory.{Bytes, IsText, write_bytes, read_bytes, Same}
use so_server_and_pipes.Fs.Ops.Handles.{node, entry}
use so_server_and_pipes.Fs.Ops.Paths.{root_value}

-- The bytes of file `p`.
abbrev pub file_bytes : Fs → ℕ → List ℕ
file_bytes s p =
    read_bytes s.fs_data (index (node s p).i_data_block * s.fs_params.block_size) (node s p).i_size

-- What name `n` stands for in a file system whose root directory is in block `b`.
abbrev pub bytes_of : Fs → ℤ → Option (List ℕ)
bytes_of s (pos p) = some (file_bytes s p)
bytes_of s (negsuc k) = none

abbrev pub contents : Fs → ℕ → List ℕ → Option (List ℕ)
contents s b n = bytes_of s (root_value s b n)

module _ {ℓ} {A : Type ℓ} where
  abbrev pub drop : ℕ → List A → List A
  drop zero xs = xs
  drop (suc k) [] = []
  drop (suc k) (x ∷ xs) = drop k xs

-- The bytes `old` with the bytes `new` in place of those from offset `off` on.
abbrev pub overwrite : List ℕ → ℕ → List ℕ → List ℕ
overwrite old off new = take off old ++ (new ++ drop (off + length new) old)
