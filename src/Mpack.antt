-- ===== src/Mpack.antt =====
-- mpack/: MessagePack objects, written and read through callbacks.
pub mod Code
pub mod Format
pub mod Limits
pub mod Swap
pub mod Wire
pub mod Writer
pub mod Reader
pub mod Stream
pub mod Defects
mod Tests
