-- ===== src/Fs.antt =====
-- fs/state.c and fs/operations.c: the in-memory file system.
pub mod Memory
pub mod Exec
pub mod Blocks
pub mod Inodes
pub mod Dir
pub mod OpenFiles
pub mod Setup
pub mod Init
pub mod Inv
pub mod View
pub mod Ops
mod Tests
