-- ===== src/Psbt/Data.antt =====
-- psbt/src/data.rs.
pub mod Flags
pub mod Tx
pub mod Input
pub mod Output
pub mod Descriptor
pub mod Container
pub mod Construct
pub mod Unsigned
pub mod Indexes
pub mod Sorting
pub mod Amounts
