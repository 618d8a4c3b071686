-- ===== src/Gateway/Tests.antt =====
-- A connection of one user with one bucket.
use prometheus_entity_sync.Base.{
  Text, codes, text_eq, Map, get, keys, Result, ok, err, Option, none, some, List, [], ◌∷◌, ◌++◌,
  All, Has, ℕ, ◌≡◌, refl, inl, inr, arith,
}
use prometheus_entity_sync.Core.{
  BucketAssignment, BucketId, BucketOp, TokenClaims, SyncError, delete, database,
}
use prometheus_entity_sync.Oplog.Redb.{OrderedTable}
use prometheus_entity_sync.Oplog.Redb.Sample.{sample}
use prometheus_entity_sync.Oplog.Store.{BucketOpLog, Faults, append}
use prometheus_entity_sync.Oplog.Store.View.{IsSound, IsSound-empty}
use prometheus_entity_sync.Oplog.Store.Append.{append-IsSound}
use prometheus_entity_sync.Protocol.{subscribe}
use prometheus_entity_sync.Rules.Resolver.{World}
use prometheus_entity_sync.Rules.Assigner.{BucketAssigner, Clock}
use prometheus_entity_sync.Gateway.Redaction.{redact, redact_noninterference}
use prometheus_entity_sync.Gateway.Effects.{Env}
use prometheus_entity_sync.Gateway.Connection.{Session, Frame, binary}
use prometheus_entity_sync.Gateway.Connection.Authorized.{Subscribes, handshake-granted}
use prometheus_entity_sync.Gateway.Writes.{handle_write}
use prometheus_entity_sync.Gateway.Writes.Guard.{IsGuarded, MayWrite, handle_write-IsGuarded}
use prometheus_entity_sync.Gateway.Writes.Emits.{Emits}
use prometheus_entity_sync.Gateway.Deltas.{poll_deltas}
use prometheus_entity_sync.Gateway.Deltas.Settled.{IsSettled}
use prometheus_entity_sync.Gateway.Deltas.Once.{IsSilent, poll_deltas-once}

abbrev pub todos : BucketAssignment
todos = record {
  bucket_id = codes "todos:1";
  rule_id = codes "todos";
  parameters = [];
  data_queries = (codes "todos", codes "SELECT * FROM todos") ∷ [];
}

abbrev pub session : Session
session = record { authorized_buckets = (codes "todos:1", todos) ∷ []; last_seen_lsn = [] }

-- A socket that sends, a database that answers, and a client that subscribes to `todos`.
abbrev pub env : Env
env = record {
  decode_client = λ bytes. ok (subscribe (codes "todos" ∷ []) (codes "token") none 1);
  send = λ events m. ok tt;
  fetch_scalar = λ events sql binds. ok (some (codes "1"));
  execute = λ events sql binds. ok tt;
  apply_delta = λ old patch. ok patch;
  snapshot_batches = λ a. [];
}

abbrev pub world : World
world = record {
  fetch_optional = λ q sub. ok none;
  display_json = λ j. [];
  display_error = λ e. [];
}

abbrev pub at_ten : Clock
at_ten = record { unix_secs = ok 10; instant = 10 }

-- The assigner holds the bucket in its cache.
abbrev pub assigner : BucketAssigner
assigner = record {
  rule_set = record { version = codes "1"; rules = [] };
  cache = (record { sub = codes "alice"; rule_set_version = codes "1" }, (todos ∷ [], 10)) ∷ [];
  cache_ttl = 300;
}

abbrev accept : Text → Result SyncError TokenClaims
accept token = ok (record { sub = codes "alice"; tenant_id = none; exp = 1000; custom = [] })

abbrev pub no_faults : Faults
no_faults c = none

abbrev pub op : BucketOp
op = record { lsn = 7; bucket_id = codes "todos:1"; entity_type = []; entity_id = []; op = delete }

abbrev pub empty_log : BucketOpLog sample
empty_log = record {
  bucket_ops = OrderedTable.empty sample.ops;
  bucket_checksums = OrderedTable.empty sample.checksums;
  compaction_ttl = 60;
}

abbrev pub log : BucketOpLog sample
log = (append sample no_faults 100 empty_log (codes "todos:1") 7 op).1

pub log-IsSound : IsSound sample log
log-IsSound =
    append-IsSound sample no_faults 100 empty_log (codes "todos:1") op (omega arith) (omega arith)
      (IsSound-empty sample 60)

redact_noninterference_example :
    redact (database (codes "column secret")) ≡ redact (database (codes "timeout"))
redact_noninterference_example =
    redact_noninterference (database (codes "column secret")) (database (codes "timeout")) refl

handshake-granted_example :
    (bytes : Text) × (◌≡◌ {A = Option (Result Text Frame)}
      (some (ok (binary [])))
      (some (ok (binary bytes))))
    × Subscribes env world at_ten 10 assigner accept bytes session
unfolding prometheus_entity_sync.Gateway.Connection.handshake get
    prometheus_entity_sync.Rules.Assigner.key_beq prometheus_entity_sync.Base.text_beq
    prometheus_entity_sync.Base.insert
handshake-granted_example =
    handshake-granted env world at_ten 10 assigner accept (some (ok (binary []))) session refl

handle_write-IsGuarded_example :
    Emits
      (IsGuarded env (MayWrite session) [] (codes "todos") (codes "5") delete)
      []
      (handle_write env session (codes "todos") (codes "5") delete []).1
handle_write-IsGuarded_example =
    handle_write-IsGuarded env session (codes "todos") (codes "5") delete []

abbrev seen : Session
seen = record session { last_seen_lsn = (codes "todos:1", 7) ∷ [] }

poll_deltas-once_example :
    ((c : BucketId) → Has c (codes "todos:1" ∷ []) → IsSettled sample (λ b. log) seen c)
    × IsSilent sample env (λ b. log) seen [] (poll_deltas env sample (λ b. log) no_faults seen [])
unfolding poll_deltas sample prometheus_entity_sync.Oplog.Store.drain_since append
    prometheus_entity_sync.Oplog.Store.read_ops prometheus_entity_sync.Oplog.Store.append_payload
    prometheus_entity_sync.Oplog.Store.append_transaction prometheus_entity_sync.Base.text_lt
    prometheus_entity_sync.Oplog.Key.make_key prometheus_entity_sync.Oplog.Key.Bytes.to_be_bytes
    prometheus_entity_sync.Oplog.Key.make_range_start get
    prometheus_entity_sync.Oplog.Key.make_bucket_range_end
    prometheus_entity_sync.Oplog.Key.lsn_from_key prometheus_entity_sync.Base.insert
poll_deltas-once_example =
    poll_deltas-once sample env (λ b. log) no_faults no_faults session seen [] [] (λ b. log-IsSound)
      (omega arith, tt) refl
