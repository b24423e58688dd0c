-- ===== src/Felica.antt =====
-- The `felica_standard` module of the crate.
pub mod Constants
pub mod Error
pub mod Types
pub mod Payload
pub mod Emulator
