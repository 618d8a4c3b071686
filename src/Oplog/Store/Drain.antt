-- ===== src/Oplog/Store/Drain.antt =====
-- `drain_since`: exactly the ops of the bucket in the scanned range, in ascending order.
use prometheus_entity_sync.Base.{
  none, Text, text_eq, ok, err, some, ◌≡◌, refl, ◌≤◌, ◌<◌, ◌⊎◌, inl, inr, List, All, Has, keep_if,
}
use prometheus_entity_sync.Core.{BucketOp, BucketId, PgLsn, SyncError, u64_max}
use prometheus_entity_sync.Oplog.Redb.{Backend, StoredOp, keep_if-IsAscending}
use prometheus_entity_sync.Oplog.Store.{BucketOpLog, Faults, Call, drain_since, to_sync_error}
use prometheus_entity_sync.Oplog.Store.Outcome.{Outcome, attempt-Outcome, map_err-Outcome}
use prometheus_entity_sync.Oplog.Store.View.{Fits, stored_at, IsSound}
use prometheus_entity_sync.Oplog.Store.Scan.{
  IsAscendingLsn, decoded, InScan, scan, tests, decoded-All, read_ops-Outcome, read_ops-ok,
  decoded-IsAscendingLsn, stored-Has, scanned_entries,
}

module _ (K : Backend) where
  open K use {ops}

  drain_since-Outcome :
      (io : Faults) (log : BucketOpLog K) (b : BucketId) (from : PgLsn) (es : List (Text × Text))
      → scan K log b from ≡ es
      → All (InScan K log b from) es
      → Outcome (drain_since K io log b from) (decoded K es)
  unfolding drain_since
  drain_since-Outcome io log b from es scanned good = map_err-Outcome to_sync_error _ _ (
      attempt-Outcome (io Call.spawn_blocking) _ _ (
        attempt-Outcome (io Call.begin_read) _ _ (
          attempt-Outcome (io Call.open_ops) _ _ (
            attempt-Outcome (io Call.range_ops) _ _
              (rw scanned (read_ops-Outcome K log b from io es good))))))

  -- In a sound log, for a bucket id and a start in range, `drain_since` fails, or returns a list that
  -- goes strictly up by LSN, whose every op is stored in the bucket at its LSN, from `from` on and
  -- below `u64::MAX`, and which has every such op.
  pub drain_since_exact :
      (io : Faults) (log : BucketOpLog K) (b : BucketId) (from : PgLsn)
      → IsSound K log
      → Fits b
      → from ≤ u64_max
      → ((e : SyncError) × (drain_since K io log b from ≡ err e))
        ⊎ ((os : List BucketOp) × (drain_since K io log b from ≡ ok os)
            × IsAscendingLsn os
            × All
                (λ o.
                  (from ≤ o.lsn)
                  × (o.lsn < u64_max)
                  × (s : StoredOp) × (stored_at K log b o.lsn ≡ some s)
                  × (s.op ≡ o))
                os
            × ((l : PgLsn) (s : StoredOp)
                → from ≤ l
                → l < u64_max
                → stored_at K log b l ≡ some s
                → Has s.op os))
  unfolding drain_since
  drain_since_exact io log b from sound hb hf =
      let entries = keep_if (tests K log b from) (ops.iter log.bucket_ops) in
      let ascending = ops.iter-IsAscending log.bucket_ops in
      let (scanned, good) = scanned_entries K log b from sound hb hf in
      elim (drain_since-Outcome io log b from entries scanned good) [
        | inl failed ↦ inl failed
        | inr done ↦ inr (
          decoded K entries,
          done,
          decoded-IsAscendingLsn K log b from entries good (keep_if-IsAscending _ _ ascending),
          decoded-All K log b from entries good,
          stored-Has K log b from,
        )
      ]

  -- It does return them if no call of the database fails.
  pub drain_since_total :
      (io : Faults) (log : BucketOpLog K) (b : BucketId) (from : PgLsn)
      → ((c : Call) → io c ≡ none)
      → IsSound K log
      → Fits b
      → from ≤ u64_max
      → (os : List BucketOp) × (drain_since K io log b from ≡ ok os)
  unfolding drain_since
  drain_since_total io log b from none_fails sound hb hf =
      let entries = keep_if (tests K log b from) (ops.iter log.bucket_ops) in
      let good = scanned_entries K log b from sound hb hf in
      (
        decoded K entries,
        rw
            (
              none_fails Call.spawn_blocking,
              none_fails Call.begin_read,
              none_fails Call.open_ops,
              none_fails Call.range_ops,
              good.0,
              read_ops-ok K log b from io entries none_fails good.1,
            )
            refl,
      )
