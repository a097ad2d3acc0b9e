-- ===== src/User.antt =====
-- The user library, user/.
pub mod Pipe
pub mod Fd
pub mod Str
pub mod Shell
pub mod Fork
pub mod File
pub mod Fsipc
pub mod Printf
pub mod Spawn
mod Tests
