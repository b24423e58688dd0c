-- ===== src/Command/Parse.antt =====
-- src/felica_standard/command/parse.rs, by parts; the frame and the dispatch stand in `Dispatch`.
pub mod Fields
pub mod Queries
pub mod Access
pub mod Settings
pub mod Dispatch
