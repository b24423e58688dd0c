-- ===== src/Clf.antt =====
-- The `clf` module of the crate.
pub mod Crc
