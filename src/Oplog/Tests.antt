-- ===== src/Oplog/Tests.antt =====
-- The op log on concrete buckets: the backend of Redb/Sample, and a bucket with two deletions.
use prometheus_entity_sync.Base.{
  Text, codes, text_eq, length, keep_if, ok, err, none, some, List, [], ◌∷◌, All, Has, ◌≤◌, ◌<◌,
  ◌-◌, ◌==◌, ◌&&◌, if◌then◌else◌, ◌≡◌, ◌⊎◌, arith, nat_eq,
}
use prometheus_entity_sync.Core.{BucketOp, BucketId, PgLsn, delete, SyncError, u64_max}
use prometheus_entity_sync.Oplog.Redb.{StoredOp, OrderedTable}
use prometheus_entity_sync.Oplog.Redb.Sample.{sample}
use prometheus_entity_sync.Oplog.Store.{
  BucketOpLog, Faults, append, drain_since, compact, fold_checksum,
}
use prometheus_entity_sync.Oplog.Store.View.{
  Fits, stored_at, running_checksum, IsSound, IsSound-empty,
}
use prometheus_entity_sync.Oplog.Store.Append.{append_atomic, stamped}
use prometheus_entity_sync.Oplog.Store.Drain.{drain_since_exact}
use prometheus_entity_sync.Oplog.Store.Scan.{IsAscendingLsn}
use prometheus_entity_sync.Oplog.Store.Compact.{compact_exact, retained, is_old}
use prometheus_entity_sync.Oplog.Store.History.{
  Event, appends, compacts, run, accepted, fold_all, run-IsSound, checksum-history,
}

abbrev user_bucket : BucketId
user_bucket = codes "user:user_id=1"

abbrev deletion : PgLsn → BucketOp
deletion lsn = record {
  lsn = lsn;
  bucket_id = user_bucket;
  entity_type = [];
  entity_id = [];
  op = delete;
}

abbrev no_faults : Faults
no_faults c = none

abbrev fresh_log : BucketOpLog sample
fresh_log = record {
  bucket_ops = OrderedTable.empty sample.ops;
  bucket_checksums = OrderedTable.empty sample.checksums;
  compaction_ttl = 60;
}

abbrev two_calls : List Event
two_calls =
    appends no_faults 100 user_bucket (deletion 7)
    ∷ appends no_faults 200 user_bucket (deletion 9)
    ∷ compacts no_faults 220
    ∷ []

abbrev busy_log : BucketOpLog sample
busy_log = run sample fresh_log two_calls

busy_log-IsSound : IsSound sample busy_log
busy_log-IsSound =
    run-IsSound sample fresh_log two_calls
      ((omega arith, omega arith), ((omega arith, omega arith), (tt, tt))) (IsSound-empty sample 60)

append_atomic_example :
    ((e : SyncError) × (append sample no_faults 100 fresh_log user_bucket 7 (deletion 7)
        ≡ (err e, fresh_log)))
    ⊎ ((p : Text) × (sample.codec.to_vec (stamped sample 100 (deletion 7)) ≡ ok p)
        × ((append sample no_faults 100 fresh_log user_bucket 7 (deletion 7)).0 ≡ ok 7)
        × ((c : BucketId) (m : PgLsn)
            → Fits c
            → m ≤ u64_max
            → stored_at sample
                (append sample no_faults 100 fresh_log user_bucket 7 (deletion 7)).1
                c
                m
              ≡ (if user_bucket == c && 7 == m
                  then some (stamped sample 100 (deletion 7))
                  else stored_at sample fresh_log c m))
        × ((c : BucketId)
            → running_checksum sample
                (append sample no_faults 100 fresh_log user_bucket 7 (deletion 7)).1
                c
              ≡ (if user_bucket == c
                  then fold_checksum (running_checksum sample fresh_log user_bucket) p
                  else running_checksum sample fresh_log c)))
append_atomic_example =
    append_atomic sample no_faults 100 fresh_log user_bucket 7 (deletion 7) (omega arith)
      (omega arith)

drain_since_exact_example :
    ((e : SyncError) × (drain_since sample no_faults busy_log user_bucket 8 ≡ err e))
    ⊎ ((os : List BucketOp) × (drain_since sample no_faults busy_log user_bucket 8 ≡ ok os)
        × IsAscendingLsn os
        × All
            (λ o.
              (8 ≤ o.lsn)
              × (o.lsn < u64_max)
              × (s : StoredOp) × (stored_at sample busy_log user_bucket o.lsn ≡ some s)
              × (s.op ≡ o))
            os
        × ((l : PgLsn) (s : StoredOp)
            → 8 ≤ l
            → l < u64_max
            → stored_at sample busy_log user_bucket l ≡ some s
            → Has s.op os))
drain_since_exact_example =
    drain_since_exact sample no_faults busy_log user_bucket 8 busy_log-IsSound (omega arith)
      (omega arith)

compact_exact_example :
    ((e : SyncError) × (compact sample no_faults 300 busy_log ≡ (err e, busy_log)))
    ⊎ (((compact sample no_faults 300 busy_log).0
          ≡ ok (
              length (
                keep_if
                  (is_old sample (300 - busy_log.compaction_ttl))
                  (OrderedTable.iter sample.ops busy_log.bucket_ops))))
        × ((b : BucketId) (l : PgLsn)
            → stored_at sample (compact sample no_faults 300 busy_log).1 b l
              ≡ retained (300 - busy_log.compaction_ttl) (stored_at sample busy_log b l))
        × ((b : BucketId)
            → running_checksum sample (compact sample no_faults 300 busy_log).1 b
              ≡ running_checksum sample busy_log b))
compact_exact_example = compact_exact sample no_faults 300 busy_log busy_log-IsSound

run-IsSound_example : IsSound sample (run sample fresh_log two_calls)
run-IsSound_example =
    run-IsSound sample fresh_log two_calls
      ((omega arith, omega arith), ((omega arith, omega arith), (tt, tt))) (IsSound-empty sample 60)

checksum-history_example :
    running_checksum sample (run sample fresh_log two_calls) user_bucket
    ≡ fold_all
        (running_checksum sample fresh_log user_bucket)
        (accepted sample fresh_log user_bucket two_calls)
checksum-history_example =
    checksum-history sample fresh_log user_bucket two_calls
      ((omega arith, omega arith), ((omega arith, omega arith), (tt, tt))) (IsSound-empty sample 60)
