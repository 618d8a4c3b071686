-- ===== src/Oplog.antt =====
-- crates/pes-oplog: the append-only log of each bucket.
pub mod Key
pub mod Redb
pub mod Store
mod Tests
