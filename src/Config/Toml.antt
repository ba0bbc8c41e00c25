-- ===== src/Config/Toml.antt =====
-- The subset of TOML that rust/src/config.rs reads. A text is the list of its characters.
pub mod Value
pub mod Doc
pub mod Get
pub mod Unique
pub mod Quoted
