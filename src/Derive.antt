-- ===== src/Derive.antt =====
-- The crate derive.
pub mod Index
pub mod Terminal
pub mod Path
pub mod TapTree
pub mod Origins
pub mod Xpub
mod Tests
