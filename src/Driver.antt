-- ===== src/Driver.antt =====
-- The `driver` module of the crate.
pub mod Framing
pub mod Tlv
