-- ===== src/Server.antt =====
-- crates/pes-server: the process around the gateway, the router and the log.
pub mod Config
pub mod Broker
pub mod Pipeline
pub mod Delivery
pub mod Shutdown
pub mod Health
pub mod Main
mod Tests
