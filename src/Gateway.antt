-- ===== src/Gateway.antt =====
-- crates/pes-gateway: one client connection, from the handshake to the delivery of deltas.
pub mod Redaction
pub mod Auth
pub mod Effects
pub mod Connection
pub mod Snapshots
pub mod Writes
pub mod Deltas
pub mod Serve
pub mod Run
pub mod Feed
pub mod Listener
mod Tests
