-- ===== src/Snapshot.antt =====
-- crates/pes-snapshot: the initial rows of a bucket in pages, and their checksums.
pub mod Checksum
pub mod Stream
mod Tests
