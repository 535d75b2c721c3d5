-- ===== src/Columnar.antt =====
-- The block codec of crates/server/src/columnar.rs, part by part.
pub mod Error
pub mod Varint
pub mod Delta
pub mod Stream
pub mod Cols
pub mod Encode
pub mod Proto
pub mod Readers
pub mod Decode
pub mod Payload
pub mod Block
pub mod Streams
pub mod RoundTrip
