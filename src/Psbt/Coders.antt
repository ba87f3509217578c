-- ===== src/Psbt/Coders.antt =====
-- psbt/src/coders.rs
pub mod Reader
pub mod Writer
pub mod Wire
pub mod Pairs
pub mod Values
pub mod Arrays
pub mod Unsigned
pub mod Paths
pub mod TapTrees
