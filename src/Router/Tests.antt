-- ===== src/Router/Tests.antt =====
-- One event that reaches the bucket of one user, and the bucket of another. The codec of the sample writes
-- deletions with empty names only.
use prometheus_entity_sync.Base.{
  Text, codes, text_eq, Result, ok, none, List, [], ◌∷◌, ℕ, ◌≡◌, refl, arith, Option,
}
use prometheus_entity_sync.Core.{BucketId, BucketAssignment}
use prometheus_entity_sync.Core.Values.{Json, null, string, object, field, end}
use prometheus_entity_sync.Oplog.Redb.{OrderedTable}
use prometheus_entity_sync.Oplog.Redb.Sample.{sample}
use prometheus_entity_sync.Oplog.Store.{BucketOpLog, Faults}
use prometheus_entity_sync.Oplog.Store.View.{IsSound, IsSound-empty}
use prometheus_entity_sync.Rules.Assigner.{BucketAssigner}
use prometheus_entity_sync.Router.{EntityChange, deleted, route_one_event}
use prometheus_entity_sync.Router.Isolation.{IsSame, route_one_event-IsSame}

abbrev bucket_one : BucketAssignment
bucket_one = record {
  bucket_id = codes "todos:1";
  rule_id = codes "todos";
  parameters = (codes "user_id", string (codes "u1")) ∷ [];
  data_queries = ([], codes "SELECT 1") ∷ [];
}

abbrev assigner : BucketAssigner
assigner = record {
  rule_set = record { version = codes "1"; rules = [] };
  cache =
      (record { sub = codes "alice"; rule_set_version = codes "1" }, (bucket_one ∷ [], 10)) ∷ [];
  cache_ttl = 300;
}

abbrev decode : Json → Result Text EntityChange
decode payload = ok (record {
  entity_type = [];
  entity_id = [];
  change = deleted;
  row = object (field (codes "owner") (string (codes "u1")) end);
})

abbrev no_faults : BucketId → Faults
no_faults b c = none

abbrev log : BucketOpLog sample
log = record {
  bucket_ops = OrderedTable.empty sample.ops;
  bucket_checksums = OrderedTable.empty sample.checksums;
  compaction_ttl = 60;
}

abbrev as_found : List BucketId → List BucketId
as_found bs = bs

route_one_event-IsSame_example :
    IsSame sample log
      (route_one_event sample no_faults 100 assigner 20 as_found decode 8 null log).1
      (codes "todos:2")
    × IsSound sample (route_one_event sample no_faults 100 assigner 20 as_found decode 8 null log).1
unfolding prometheus_entity_sync.Rules.Assigner.find_affected_buckets
    prometheus_entity_sync.Base.contains_key prometheus_entity_sync.Base.text_beq
    prometheus_entity_sync.Core.Values.json_beq
route_one_event-IsSame_example =
    route_one_event-IsSame sample no_faults 100 assigner 20 as_found decode 8 null log
      (codes "todos:2") (omega arith) (omega arith, tt) (omega arith) (refl, tt)
      (IsSound-empty sample 60)
