-- ===== src/Config.antt =====
-- rust/src/config.rs: the configuration file, from its text to the settings of a run.
pub mod Text
pub mod Number
pub mod Toml
pub mod Names
pub mod Settings
pub mod Schema
pub mod Steps
pub mod Sections
