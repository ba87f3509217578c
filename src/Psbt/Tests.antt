-- ===== src/Psbt/Tests.antt =====
-- The theorems of psbt/src at concrete inputs.
mod CompactSize
mod Sample
mod Maps
mod Data
mod Wallets
mod Csval
mod Messages
mod Trees
mod Commitments
