-- ===== src/Examples.antt =====
-- The theorems at concrete inputs.
mod Blocks
mod Brokers
mod Codes
mod Segments
mod Stores
mod Recompacted
