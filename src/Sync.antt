-- ===== src/Sync.antt =====
-- rust/src/sync.rs: record validation, the scan for the first record and sync recovery.
pub mod Validate
pub mod Scan
