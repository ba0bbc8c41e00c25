-- ===== src/Merge.antt =====
-- rust/src/merge.rs: many recordings in one stream in the order of time.
pub mod Inputs
pub mod State
pub mod Step
pub mod Priming
pub mod Ascends
pub mod InOrder
pub mod Complete
pub mod Opened
pub mod Dedup
