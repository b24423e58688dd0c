-- ===== src/Felica/Emulator.antt =====
-- The `emulator` module: the emulated card.
pub mod Blocks
pub mod Structure
pub mod Overlap
