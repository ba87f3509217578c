-- ===== src/Invoice.antt =====
-- The crate of invoice/src.
pub mod Address
mod Tests
