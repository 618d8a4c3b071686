-- ===== src/Rules.antt =====
-- crates/pes-rules: the sync-rule DSL and the assignment of buckets to authenticated users.
pub mod Chars
pub mod Template
pub mod Parser
pub mod Validator
pub mod Resolver
pub mod Assigner
mod Tests
