-- ===== src/Gateway/Snapshots.antt =====
-- crates/pes-gateway/src/connection.rs: `deliver_snapshots`.
use prometheus_entity_sync.Base.{
  text_eq, Map, contains_key, Result, List, [], ◌∷◌, ℕ, ◌+◌, if◌then◌else◌,
}
use prometheus_entity_sync.Core.{BucketAssignment, BucketId, PgLsn, SyncError}
use prometheus_entity_sync.Core.Values.{Json}
use prometheus_entity_sync.Protocol.{
  snapshot_begin, snapshot_batch, snapshot_complete, protocol_version,
}
use prometheus_entity_sync.Gateway.Effects.{Env, Conn, ◌>>=◌, ◌>>◌, pure, lift, send_message}
use prometheus_entity_sync.Gateway.Connection.{Session}

-- The assignments with no LSN to resume from.
unfoldable pub fresh_assignments :
    Map BucketId PgLsn → Map BucketId BucketAssignment → List BucketAssignment
fresh_assignments seen [] = []
fresh_assignments seen ((b, a) ∷ m) =
    let rest = fresh_assignments seen m in if contains_key seen b then rest else a ∷ rest

module _ (env : Env) where
  unfoldable pub send_batches : BucketId → ℕ → List (Result SyncError (List Json)) → Conn (Unit {0})
  send_batches wire_bucket_id offset [] = pure tt
  send_batches wire_bucket_id offset (batch ∷ batches) = do
    rows ← lift batch
    send_message env (snapshot_batch wire_bucket_id rows offset)
    send_batches wire_bucket_id (offset + 1) batches

  -- `read_checksum` is the checksum of a bucket in the log at that moment.
  unfoldable pub deliver_one : (BucketId → Result SyncError ℕ) → BucketAssignment → Conn (Unit {0})
  unfolding send_batches
  deliver_one read_checksum a = do
    sum ← lift (read_checksum a.bucket_id)
    send_message env (snapshot_begin a.rule_id 0 protocol_version)
    send_batches a.rule_id 0 (env.snapshot_batches a)
    send_message env (snapshot_complete a.rule_id sum)

  unfoldable pub deliver_all :
      (BucketId → Result SyncError ℕ) → List BucketAssignment → Conn (Unit {0})
  unfolding deliver_one
  deliver_all read_checksum [] = pure tt
  deliver_all read_checksum (a ∷ as') = do
    deliver_one read_checksum a
    deliver_all read_checksum as'

  unfoldable pub deliver_snapshots : (BucketId → Result SyncError ℕ) → Session → Conn (Unit {0})
  unfolding deliver_all fresh_assignments
  deliver_snapshots read_checksum s =
      deliver_all read_checksum (fresh_assignments s.last_seen_lsn s.authorized_buckets)
