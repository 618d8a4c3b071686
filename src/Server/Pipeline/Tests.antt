-- ===== src/Server/Pipeline/Tests.antt =====
-- One event on its way through the pipeline, and to a client. The codec of the sample writes deletions
-- with empty names only.
use prometheus_entity_sync.Base.{
  Text, codes, text_eq, keys, All, Has, Result, ok, err, Option, none, some, List, [], ◌∷◌, ◌⊎◌, ℕ,
  ◌≤◌, ◌≡◌, refl, inl, inr, arith, false, sym,
}
use mathlib.Core.Path.{subst}
use prometheus_entity_sync.Core.{BucketId, BucketAssignment}
use prometheus_entity_sync.Core.Values.{Json, null, string, object, field, end}
use prometheus_entity_sync.Oplog.Redb.{OrderedTable}
use prometheus_entity_sync.Oplog.Redb.Sample.{sample}
use prometheus_entity_sync.Oplog.Store.{BucketOpLog, Faults}
use prometheus_entity_sync.Oplog.Store.View.{IsSound, IsSound-empty}
use prometheus_entity_sync.Protocol.{ping}
use prometheus_entity_sync.Rules.Assigner.{BucketAssigner}
use prometheus_entity_sync.Router.{EntityChange, deleted, routed_op, route_one_event}
use prometheus_entity_sync.Router.Isolation.{route_one_event-IsSame}
use prometheus_entity_sync.Router.Run.{EventEnvelope, Surroundings}
use prometheus_entity_sync.Gateway.Effects.{Env}
use prometheus_entity_sync.Gateway.Connection.{Session}
use prometheus_entity_sync.Gateway.Deltas.{wire_bucket_id, poll_deltas}
use prometheus_entity_sync.Gateway.Deltas.Delivery.{IsDelivered}
use prometheus_entity_sync.Gateway.Deltas.Total.{Succeeds}
use prometheus_entity_sync.Server.Broker.{take_offset, send}
use prometheus_entity_sync.Server.Pipeline.{
  Pipeline, started_on, sends, QuietRun, publishes, passes_on, Reaches, here, and_then,
}
use prometheus_entity_sync.Server.Pipeline.Order.{IsRouted}
use prometheus_entity_sync.Server.Pipeline.Routed.{published_by, writers_of, pipeline-IsRouted}
use prometheus_entity_sync.Server.Pipeline.Drain.{
  steps_left, run_writers, IsWritten, CanMove, pipeline-drains,
}
use prometheus_entity_sync.Server.Delivery.{event-IsDelivered}

abbrev todos : BucketAssignment
todos = record {
  bucket_id = codes "todos:1";
  rule_id = codes "todos";
  parameters = (codes "user_id", string (codes "u1")) ∷ [];
  data_queries = ([], codes "SELECT 1") ∷ [];
}

abbrev assigner : BucketAssigner
assigner = record {
  rule_set = record { version = codes "1"; rules = [] };
  cache = (record { sub = codes "alice"; rule_set_version = codes "1" }, (todos ∷ [], 10)) ∷ [];
  cache_ttl = 300;
}

abbrev change : EntityChange
change = record {
  entity_type = [];
  entity_id = [];
  change = deleted;
  row = object (field (codes "owner") (string (codes "u1")) end);
}

abbrev decode : Json → Result Text EntityChange
decode payload = ok change

abbrev no_faults : BucketId → Faults
no_faults b c = none

abbrev as_found : List BucketId → List BucketId
as_found bs = bs

abbrev surroundings : Surroundings sample
surroundings = record {
  assigner = assigner;
  instant = 20;
  now = 100;
  order = as_found;
  decode_payload = decode;
  faults = no_faults;
  latency_ms = 1;
}

abbrev log : BucketOpLog sample
log = record {
  bucket_ops = OrderedTable.empty sample.ops;
  bucket_checksums = OrderedTable.empty sample.checksums;
  compaction_ttl = 60;
}

abbrev channel : Text
channel = codes "entity/changes"

abbrev event : EventEnvelope
event = record { offset = 0; payload = null }

abbrev published : Pipeline sample
published = record (started_on sample log) {
  publishing = some event;
  broker = record { queue = []; rx = false; next_offset = 1 };
}

abbrev queued : Pipeline sample
queued = record published {
  publishing = none;
  broker = record { queue = event ∷ []; rx = false; next_offset = 1 };
}

queued-Reaches : Reaches sample channel (started_on sample log) queued
unfolding take_offset send
queued-Reaches = and_then (and_then here (publishes (started_on sample log) event refl)) (
    passes_on (
      sends published event (record { queue = event ∷ []; rx = false; next_offset = 1 }) refl refl))

pipeline-IsRouted_example :
    IsRouted sample channel log
      (published_by sample channel (started_on sample log) queued queued-Reaches)
      (writers_of sample channel (started_on sample log) queued queued-Reaches)
      queued
pipeline-IsRouted_example = pipeline-IsRouted sample channel log queued queued-Reaches

pipeline-drains_example :
    ((n : ℕ) (t : Pipeline sample) (run : QuietRun sample channel n queued t)
      → (n ≤ steps_left sample channel queued)
        × (CanMove sample channel t
            ⊎ IsWritten sample channel log
                (null ∷ [])
                (run_writers sample channel n queued t run)
                t))
    × ((n : ℕ) × (t : Pipeline sample) × (run : QuietRun sample channel n queued t) × IsWritten
          sample channel log
          (null ∷ [])
          (run_writers sample channel n queued t run)
          t
        × All (λ v. v ≡ surroundings) (run_writers sample channel n queued t run))
unfolding queued-Reaches
pipeline-drains_example = pipeline-drains sample channel log surroundings queued queued-Reaches

abbrev session : Session
session = record { authorized_buckets = (codes "todos:1", todos) ∷ []; last_seen_lsn = [] }

abbrev env : Env
env = record {
  decode_client = λ bytes. ok ping;
  send = λ events m. ok tt;
  fetch_scalar = λ events sql binds. ok none;
  execute = λ events sql binds. ok tt;
  apply_delta = λ old patch. ok patch;
  snapshot_batches = λ a. [];
}

abbrev routed_log : BucketOpLog sample
routed_log = (route_one_event sample no_faults 100 assigner 20 as_found decode 8 null log).1

routed_log-IsSound : IsSound sample routed_log
unfolding prometheus_entity_sync.Rules.Assigner.find_affected_buckets
    prometheus_entity_sync.Base.contains_key prometheus_entity_sync.Base.text_beq
    prometheus_entity_sync.Core.Values.json_beq
routed_log-IsSound =
    (route_one_event-IsSame sample no_faults 100 assigner 20 as_found decode 8 null log
      (codes "todos:2") (omega arith) (omega arith, tt) (omega arith) (refl, tt)
      (IsSound-empty sample 60)).1

is_routed :
    (route_one_event sample no_faults 100 assigner 20 as_found decode 8 null log).0
    ≡ codes "todos:1" ∷ []
unfolding prometheus_entity_sync.Rules.Assigner.find_affected_buckets
    prometheus_entity_sync.Base.contains_key prometheus_entity_sync.Base.text_beq
    prometheus_entity_sync.Core.Values.json_beq route_one_event
    prometheus_entity_sync.Oplog.Store.append prometheus_entity_sync.Oplog.Store.append_payload
    prometheus_entity_sync.Oplog.Store.append_transaction prometheus_entity_sync.Router.append_each
    sample
is_routed = refl

event-IsDelivered_example :
    Succeeds (poll_deltas env sample (λ b. routed_log) (no_faults []) session [])
    × IsDelivered
        (wire_bucket_id session (codes "todos:1"))
        (routed_op change 8 (codes "todos:1"))
        (poll_deltas env sample (λ b. routed_log) (no_faults []) session []).1
unfolding prometheus_entity_sync.Rules.Assigner.find_affected_buckets
    prometheus_entity_sync.Base.contains_key prometheus_entity_sync.Base.text_beq
    prometheus_entity_sync.Core.Values.json_beq prometheus_entity_sync.Base.get
event-IsDelivered_example =
    event-IsDelivered sample no_faults 100 assigner 20 as_found decode 8 null log change
      (codes "todos:1") env (λ b. routed_log) (no_faults []) session [] refl (omega arith)
      (omega arith, tt) (omega arith) (subst (Has (codes "todos:1")) (sym is_routed) (inl refl))
      (λ b. routed_log-IsSound) refl (λ c. refl) (λ es m. refl) (omega arith, tt) (inl refl)
      (omega arith)
