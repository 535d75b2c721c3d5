-- ===== src/Segment.antt =====
-- The segment files of crates/server/src/storage.rs, part by part. A file is the list of its bytes.
pub mod Little
pub mod Error
pub mod Rows
pub mod Index
pub mod Container
pub mod Writer
pub mod Layout
pub mod Recompact
