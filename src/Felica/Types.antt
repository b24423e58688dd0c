-- ===== src/Felica/Types.antt =====
-- src/felica_standard/types.rs, by parts.
pub mod Service
pub mod Block
pub mod Selectors
pub mod Status
pub mod Results
pub mod Versions
