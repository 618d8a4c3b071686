-- ===== src/Router.antt =====
-- crates/pes-router/src/router.rs: `route_one_event` and `classify_op`. The decoding of an envelope's
-- payload is an argument. The appends run as tasks, which the log takes one after another; `order`
-- puts the affected buckets into the order in which it takes them, and each has its own faults.
pub mod Isolation
pub mod Metrics
pub mod Run
mod Tests
use prometheus_entity_sync.Base.{Text, Result, ok, err, ℕ, List, [], ◌∷◌}
use prometheus_entity_sync.Core.{BucketId, BucketOp, PgLsn, SyncError, Op, upsert, delete}
use prometheus_entity_sync.Core.Values.{Json}
use prometheus_entity_sync.Oplog.Redb.{Backend}
use prometheus_entity_sync.Oplog.Store.{BucketOpLog, Faults, append}
use prometheus_entity_sync.Rules.Assigner.{BucketAssigner, find_affected_buckets}

-- `frf_domain::ChangeOp`, as far as the code tells its values apart.
pub data ChangeOp : Type 0 where
  deleted inserted updated upserted unknown : ChangeOp

-- The fields of `frf_domain::EntityChange` that the router reads.
pub record EntityChange : Type 0 where
  pub entity_type : Text
  pub entity_id : Text
  pub change : ChangeOp
  pub row : Json

unfoldable pub classify_op : ChangeOp → Json → Op
classify_op deleted row = delete
classify_op inserted row = upsert row
classify_op updated row = upsert row
classify_op upserted row = upsert row
classify_op unknown row = upsert row

abbrev pub routed_op : EntityChange → PgLsn → BucketId → BucketOp
routed_op c lsn bucket_id = record {
  lsn = lsn;
  bucket_id = bucket_id;
  entity_type = c.entity_type;
  entity_id = c.entity_id;
  op = classify_op c.change c.row;
}

module _ (K : Backend) (io : BucketId → Faults) (now : ℕ) where
  abbrev pub if_appended : Result SyncError PgLsn → BucketId → List BucketId → List BucketId
  if_appended (ok lsn) b routed = b ∷ routed
  if_appended (err e) b routed = routed

  -- The buckets whose append succeeded, and the log.
  unfoldable pub append_each :
      EntityChange → PgLsn → List BucketId → BucketOpLog K → List BucketId × BucketOpLog K
  append_each c lsn [] log = ([], log)
  append_each c lsn (b ∷ bs) log =
      let (r, log') = append K (io b) now log b lsn (routed_op c lsn b) in
      let (routed, log'') = append_each c lsn bs log' in (if_appended r b routed, log'')

  abbrev pub route_change :
      BucketAssigner
      → ℕ
      → (List BucketId → List BucketId)
      → PgLsn
      → Result Text EntityChange
      → BucketOpLog K
      → List BucketId × BucketOpLog K
  route_change a instant order offset (err e) log = ([], log)
  route_change a instant order offset (ok c) log =
      append_each c offset (order (find_affected_buckets a instant c.entity_type c.row)) log

  unfoldable pub route_one_event :
      BucketAssigner
      → ℕ
      → (List BucketId → List BucketId)
      → (Json → Result Text EntityChange)
      → PgLsn
      → Json
      → BucketOpLog K
      → List BucketId × BucketOpLog K
  unfolding append_each classify_op
  route_one_event a instant order decode offset payload log =
      route_change a instant order offset (decode payload) log
