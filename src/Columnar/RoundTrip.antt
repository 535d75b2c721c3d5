-- ===== src/Columnar/RoundTrip.antt =====
-- The decoder inverts the encoder: events of each part of a record, written by the one and read by
-- the other.
pub mod Events
pub mod Written
pub mod Timeline
pub mod Parts
pub mod Order
pub mod Records
pub mod Payload
pub mod Manifest
pub mod Block
pub mod Start
pub mod Whole
