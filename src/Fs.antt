-- ===== src/Fs.antt =====
-- The file server, fs/fs.c.
pub mod State
pub mod Bitmap
pub mod Cache
pub mod Sync
pub mod File
pub mod Dir
pub mod Path
pub mod Mapping
pub mod Name
pub mod Truncate
pub mod Serve
pub mod Tests
pub mod Blocks
