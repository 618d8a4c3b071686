-- ===== src/Router/Run.antt =====
-- crates/pes-router/src/router.rs: `run`, the loop that receives events and the task that writes them.
-- They share a bounded channel, and take turns in any order. `next_envelope` of the subscription and
-- the surroundings of a write are arguments of a turn.
use prometheus_entity_sync.Base.{
  Text, text_eq, Result, ok, err, List, [], ◌∷◌, ◌++◌, ℕ, ltb, length, Option, none, some, Bool,
  false, if◌then◌else◌,
}
use prometheus_entity_sync.Core.{BucketId, SyncError}
use prometheus_entity_sync.Core.Values.{Json}
use prometheus_entity_sync.Oplog.Redb.{Backend}
use prometheus_entity_sync.Oplog.Store.{BucketOpLog, Faults}
use prometheus_entity_sync.Rules.Assigner.{BucketAssigner, find_affected_buckets}
use prometheus_entity_sync.Router.{EntityChange, route_one_event}
use prometheus_entity_sync.Router.Metrics.{
  RouterMetrics, record_event_received, record_op_routed, record_routing_latency_ms,
  set_oplog_queue_depth,
}

abbrev pub backpressure_capacity : ℕ
backpressure_capacity = 1000

-- The fields of `frf_domain::EventEnvelope` that the code reads or sets.
pub record EventEnvelope : Type 0 where
  pub offset : ℕ
  pub payload : Json

pub data RouterError : Type 0 where
  broker : Text → RouterError
  decode : Text → RouterError
  op_log : SyncError → RouterError

unfoldable pub count_routed : List BucketId → RouterMetrics → RouterMetrics
unfolding record_op_routed
count_routed [] m = m
count_routed (b ∷ bs) m = count_routed bs (record_op_routed b m)

module _ (K : Backend) where
  -- The envelope that the loop has received and not sent on, the channel between the two, the log, the
  -- metrics, and how the loop ended if it did.
  pub record Running : Type 0 where
    pub sending : Option EventEnvelope
    pub channel : List EventEnvelope
    pub oplog : BucketOpLog K
    pub metrics : RouterMetrics
    pub ended : Option (Result RouterError (Unit {0}))

  -- `subscribe`, and the loop if it succeeds.
  abbrev pub begin : Result Text (Unit {0}) → BucketOpLog K → RouterMetrics → Running
  begin (ok _) log m = record {
    sending = none;
    channel = [];
    oplog = log;
    metrics = m;
    ended = none;
  }
  begin (err e) log m = record {
    sending = none;
    channel = [];
    oplog = log;
    metrics = m;
    ended = some (err (broker e));
  }

  -- What `stream.next()` gave.
  unfoldable pub receive : Text → Option (Result Text EventEnvelope) → Running → Running
  unfolding record_event_received set_oplog_queue_depth
  receive channel_id none r = record r { ended = some (ok tt) }
  receive channel_id (some (err e)) r = record r { ended = some (err (broker e)) }
  receive channel_id (some (ok envelope)) r = record r {
    metrics = set_oplog_queue_depth channel_id (length r.channel) (record_event_received r.metrics);
    sending = some envelope;
  }

  -- `tx.send`, which waits for room in the channel.
  unfoldable pub forward : EventEnvelope → Running → Running
  forward envelope r =
      if ltb (length r.channel) backpressure_capacity
      then record r { sending = none; channel = r.channel ++ envelope ∷ [] }
      else r

  -- What a write meets: the assigner and the clocks at its time, the order of the appends, the faults of
  -- each, and how the payloads decode.
  pub record Surroundings : Type 0 where
    pub assigner : BucketAssigner
    pub instant : ℕ
    pub now : ℕ
    pub order : List BucketId → List BucketId
    pub decode_payload : Json → Result Text EntityChange
    pub faults : BucketId → Faults
    pub latency_ms : ℕ

  abbrev pub route : Surroundings → EventEnvelope → BucketOpLog K → List BucketId × BucketOpLog K
  route w e log =
      route_one_event K w.faults w.now w.assigner w.instant w.order w.decode_payload e.offset
        e.payload log

  -- Nothing is observed for an event that does not decode or affects no bucket.
  abbrev pub is_measured : Surroundings → Result Text EntityChange → Bool
  is_measured w (err e) = false
  is_measured w (ok c) =
      ltb 0 (length (find_affected_buckets w.assigner w.instant c.entity_type c.row))

  abbrev pub measured : Surroundings → EventEnvelope → RouterMetrics → RouterMetrics
  measured w e m =
      if is_measured w (w.decode_payload e.payload)
      then record_routing_latency_ms w.latency_ms m
      else m

  -- One turn of the writer.
  abbrev pub write_next : Surroundings → List EventEnvelope → Running → Running
  write_next w [] r = r
  write_next w (e ∷ waiting) r =
      let routed = route w e r.oplog in
      record r {
        channel = waiting;
        oplog = routed.1;
        metrics = measured w e (count_routed routed.0 r.metrics);
      }

  unfoldable pub write : Surroundings → Running → Running
  unfolding route_one_event count_routed
  write w r = write_next w r.channel r
