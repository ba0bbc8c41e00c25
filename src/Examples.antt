-- ===== src/Examples.antt =====
-- Runs of the model on small inputs, and the theorems at them.
mod Models
mod Decode
mod Sync
mod Stream
mod Reader
mod Payload
mod Open
mod Order
mod Merge
mod Writer
mod Config
mod Cli
