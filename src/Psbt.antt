-- ===== src/Psbt.antt =====
-- The crate psbt.
pub mod Ver
pub mod Keys
pub mod Errors
pub mod Coders
pub mod Maps
pub mod Data
pub mod KeyMap
pub mod Serial
pub mod Constructor
pub mod Csval
mod Tests
