-- ===== src/Cli.antt =====
-- rust/src/cli.rs: the arguments of the decode command and what a run makes of them.
pub mod Values
pub mod Decode
pub mod Accepted
pub mod Run
pub mod Settled
pub mod Joined
