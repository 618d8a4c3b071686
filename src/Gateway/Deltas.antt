-- ===== src/Gateway/Deltas.antt =====
-- crates/pes-gateway/src/connection.rs: `poll_deltas`. `log_at b` is the log as the scan of `b` finds it;
-- `lsn.0 + 1` wraps, as release builds do.
pub mod Seen
pub mod Settled
pub mod Once
pub mod Wire
pub mod Delivery
pub mod Total
use prometheus_entity_sync.Base.{
  Text, codes, text_eq, Map, get, insert, contains_key, keys, map, length, keep_if, Result, ok, err,
  map_err, Option, none, some, List, [], ◌∷◌, ◌++◌, ℕ, ◌+◌, ◌%◌, ltb, if◌then◌else◌, Bool, true,
  false, not, ◌==◌,
}
use prometheus_entity_sync.Core.{
  BucketAssignment, BucketId, BucketOp, Op, upsert, delete, crdt_patch, PgLsn, SyncError,
  protocol_error, auth_error, TokenClaims,
}
use prometheus_entity_sync.Core.Values.{Json}
use prometheus_entity_sync.Oplog.Redb.{Backend}
use prometheus_entity_sync.Oplog.Store.{BucketOpLog, Faults, drain_since, checksum, u64_mod}
use prometheus_entity_sync.Protocol.{
  ServerMessage, snapshot_begin, snapshot_batch, snapshot_complete, delta, keepalive, ClientMessage,
  subscribe, ack, write, ping, protocol_version,
}
use prometheus_entity_sync.Rules.Resolver.{World}
use prometheus_entity_sync.Rules.Assigner.{BucketAssigner, Clock, Reply, assign}
use prometheus_entity_sync.Gateway.Effects.{
  Env, Event, Bind, bind_json, bind_text, bind_bytes, Conn, continue_conn, ◌>>=◌, ◌>>◌, pure, fail,
  lift, send_message, send_error, report, fetch_optional, run_statement,
}
use prometheus_entity_sync.Gateway.Connection.{Session, Frame, binary, close, other}

abbrev pub or_zero : Option PgLsn → PgLsn
or_zero none = 0
or_zero (some lsn) = (lsn + 1) % u64_mod

-- Where the scan of a bucket starts: one past the last LSN delivered.
abbrev pub scan_from : Session → BucketId → PgLsn
scan_from s b = or_zero (get s.last_seen_lsn b)

unfoldable pub max_lsn : BucketOp → List BucketOp → PgLsn
max_lsn o [] = o.lsn
max_lsn o (p ∷ ops) = let rest = max_lsn p ops in if ltb o.lsn rest then rest else o.lsn

abbrev pub or_internal : BucketId → Option BucketAssignment → BucketId
or_internal b none = b
or_internal b (some a) = a.rule_id

abbrev pub wire_bucket_id : Session → BucketId → BucketId
wire_bucket_id s b = or_internal b (get s.authorized_buckets b)

abbrev pub for_wire : BucketId → List BucketOp → List BucketOp
for_wire wire ops = map (λ (o : BucketOp). record o { bucket_id = wire }) ops

module _ (env : Env) (K : Backend) (log_at : BucketId → BucketOpLog K) (io : Faults) where
  abbrev pub deliver_ops : Session → BucketId → Result SyncError (List BucketOp) → Conn Session
  deliver_ops s b (err e) = fail e
  deliver_ops s b (ok []) = pure s
  deliver_ops s b (ok (o ∷ ops)) = do
    let wire = wire_bucket_id s b
    let top = max_lsn o ops
    send_message env (delta wire (for_wire wire (o ∷ ops)) top)
    pure (record s { last_seen_lsn = insert s.last_seen_lsn b top })

  unfoldable pub poll_bucket : Session → BucketId → Conn Session
  unfolding max_lsn
  poll_bucket s b = deliver_ops s b (drain_since K io (log_at b) b (scan_from s b))

  unfoldable pub poll_buckets : List BucketId → Session → Conn Session
  unfolding poll_bucket
  poll_buckets [] s = pure s
  poll_buckets (b ∷ bs) s = poll_bucket s b >>= poll_buckets bs

  unfoldable pub poll_deltas : Session → Conn Session
  unfolding poll_buckets
  poll_deltas s = poll_buckets (keys s.authorized_buckets) s
