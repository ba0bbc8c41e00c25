-- ===== src/Decode.antt =====
-- rust/src/decode.rs: the decoders of record fields, format classification, the structural
-- invariants and the timestamp-format probe.
pub mod Mux
pub mod Read
pub mod Fields
pub mod Classify
pub mod Invariants
pub mod Probe
