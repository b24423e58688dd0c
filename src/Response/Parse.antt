-- ===== src/Response/Parse.antt =====
-- src/felica_standard/response/parse.rs: reading the bytes of a response.
pub mod Fields
pub mod Contents
pub mod Bounds
pub mod Queries
pub mod Lists
pub mod Settings
pub mod Secure
pub mod Dispatch
