-- ===== src/Fs.antt =====
-- fs/: the file system, its state and its operations.
pub mod Types
pub mod Run
pub mod Tables
pub mod Blocks
pub mod Entries
pub mod Inodes
pub mod Dir
pub mod Files
pub mod Setup
pub mod Ops
pub mod Samples
mod Tests
mod Examples
