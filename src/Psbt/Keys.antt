-- ===== src/Psbt/Keys.antt =====
-- psbt/src/keys.rs: the key types of the three maps of a PSBT.
pub mod KeyType
pub mod Global
pub mod Input
pub mod Output
pub mod Laws
