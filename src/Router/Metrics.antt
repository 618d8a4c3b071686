-- ===== src/Router/Metrics.antt =====
-- crates/pes-router/src/metrics.rs: `RouterMetrics`. Prometheus keeps the values; a counter of it stands
-- as a number, a family of counters as a map by label, and a histogram as what it observed.
use prometheus_entity_sync.Base.{
  Text, text_eq, Map, get, insert, Option, none, some, List, [], ◌∷◌, ℕ, ◌+◌,
}
use prometheus_entity_sync.Core.{BucketId}

pub record RouterMetrics : Type 0 where
  pub wal_events_received_total : ℕ
  pub wal_events_routed_total : Map BucketId ℕ
  pub routing_latency_ms : List ℕ
  pub oplog_queue_depth : Map Text ℕ

abbrev pub new_metrics : RouterMetrics
new_metrics = record {
  wal_events_received_total = 0;
  wal_events_routed_total = [];
  routing_latency_ms = [];
  oplog_queue_depth = [];
}

abbrev pub value_of : Option ℕ → ℕ
value_of none = 0
value_of (some n) = n

unfoldable pub record_event_received : RouterMetrics → RouterMetrics
record_event_received m = record m { wal_events_received_total = m.wal_events_received_total + 1 }

unfoldable pub record_op_routed : BucketId → RouterMetrics → RouterMetrics
record_op_routed b m = record m {
  wal_events_routed_total =
      insert m.wal_events_routed_total b (value_of (get m.wal_events_routed_total b) + 1);
}

unfoldable pub record_routing_latency_ms : ℕ → RouterMetrics → RouterMetrics
record_routing_latency_ms millis m = record m { routing_latency_ms = millis ∷ m.routing_latency_ms }

unfoldable pub set_oplog_queue_depth : Text → ℕ → RouterMetrics → RouterMetrics
set_oplog_queue_depth label depth m = record m {
  oplog_queue_depth = insert m.oplog_queue_depth label depth;
}
