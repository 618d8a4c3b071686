-- ===== src/Protocol.antt =====
-- crates/pes-protocol/src/messages.rs: the messages of PSyncV1, with the variants that
-- there are; the arms that the source keeps for later variants cannot be reached.
use prometheus_entity_sync.Base.{Text, Map, ℕ, Option, List}
use prometheus_entity_sync.Core.{BucketId, BucketChecksum, BucketOp, Op, PgLsn}
use prometheus_entity_sync.Core.Values.{Json}

abbrev pub protocol_version : ℕ
protocol_version = 1

pub data ServerMessage : Type 0 where
  snapshot_begin : BucketId → ℕ → ℕ → ServerMessage
  snapshot_batch : BucketId → List Json → ℕ → ServerMessage
  snapshot_complete : BucketId → BucketChecksum → ServerMessage
  delta : BucketId → List BucketOp → PgLsn → ServerMessage
  checkpoint : PgLsn → Map BucketId BucketChecksum → ServerMessage
  keepalive : ℕ → ServerMessage
  error : ℕ → Text → ServerMessage

pub data ClientMessage : Type 0 where
  subscribe : List Text → Text → Option PgLsn → ℕ → ClientMessage
  ack : PgLsn → ClientMessage
  write : Text → Text → Op → ClientMessage
  ping : ClientMessage
