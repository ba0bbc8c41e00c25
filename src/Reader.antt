-- ===== src/Reader.antt =====
-- rust/src/reader.rs: the record iterator. Log lines are left out, and so is the memory map: a file
-- is the list of its bytes.
pub mod State
pub mod Payload
pub mod Step
pub mod Decode
pub mod Next
pub mod Open
