-- ===== src/Oplog/Store/Append.antt =====
-- `append`: atomic over both tables, and exact on the view.
use prometheus_entity_sync.Base.{
  Text, text_eq, nat_eq, ok, err, some, ◌≡◌, refl, sym, ap, ◌∙◌, ℕ, ◌≤◌, ◌⊎◌, inl, inr, ◌&&◌, ◌==◌,
  ==_iff, Bool-cases, if◌then◌else◌, arith, Result-cases,
}
use prometheus_entity_sync.Core.{BucketOp, BucketId, PgLsn, SyncError, u64_max}
use prometheus_entity_sync.Oplog.Key.{make_key}
use prometheus_entity_sync.Oplog.Key.Order.{make_key-injective}
use prometheus_entity_sync.Oplog.Redb.{Backend, StoredOp}
use prometheus_entity_sync.Oplog.Store.{
  BucketOpLog, Faults, Call, codec, append, append_payload, append_transaction, fold_checksum,
  to_sync_error,
}
use prometheus_entity_sync.Oplog.Store.Outcome.{Outcome, attempt-Outcome}
use prometheus_entity_sync.Oplog.Store.View.{Fits, stored_at, running_checksum, IsSound}

module _ (K : Backend) where
  open K use {ops, checksums}

  abbrev committed : BucketOpLog K → BucketId → PgLsn → Text → BucketOpLog K
  committed log b l p = record log {
    bucket_ops = ops.insert log.bucket_ops (make_key b l) p;
    bucket_checksums =
        checksums.insert log.bucket_checksums b (fold_checksum (running_checksum K log b) p);
  }

  transaction-Outcome :
      (io : Faults) (log : BucketOpLog K) (b : BucketId) (l : PgLsn) (p : Text)
      → Outcome (append_transaction K io log b l p) (committed log b l p)
  unfolding append_transaction
  transaction-Outcome io log b l p = attempt-Outcome (io Call.spawn_blocking) _ _ (
      attempt-Outcome (io Call.begin_write) _ _ (
        attempt-Outcome (io Call.open_ops) _ _ (
          attempt-Outcome (io Call.insert_op) _ _ (
            attempt-Outcome (io Call.open_checksums) _ _ (
              attempt-Outcome (io Call.get_checksum) _ _ (
                attempt-Outcome (io Call.insert_checksum) _ _
                  (attempt-Outcome (io Call.commit) _ _ (inr refl))))))))

  abbrev pub stamped : ℕ → BucketOp → StoredOp
  stamped now op = record { op = op; appended_at_unix_secs = now }

  pub append-cases :
      (io : Faults) (now : ℕ) (log : BucketOpLog K) (b : BucketId) (l : PgLsn) (op : BucketOp)
      → ((e : SyncError) × (append K io now log b l op ≡ (err e, log)))
        ⊎ ((p : Text) × (K.codec.to_vec (stamped now op) ≡ ok p)
            × (append K io now log b l op ≡ (ok l, committed log b l p)))
  unfolding append append_payload
  append-cases io now log b l op = elim (Result-cases (K.codec.to_vec (stamped now op))) [
    | inr (e, h) ↦ inl (to_sync_error (codec e), rw (h, append_payload))
    | inl (p, h) ↦ elim (transaction-Outcome io log b l p) [
      | inl (e, g) ↦ inl (to_sync_error e, rw (h, append_payload) (rw g))
      | inr g ↦ inr (p, h, rw (h, append_payload) (rw g))
    ]
  ]

  -- The same key, or another one.
  key_test :
      (b c : Text) (l m : ℕ)
      → Fits b
      → Fits c
      → l ≤ u64_max
      → m ≤ u64_max
      → (make_key b l == make_key c m) ≡ (b == c && l == m)
  key_test b c l m hb hc hl hm = ground (
    arith,
    ==_iff b c,
    ==_iff l m,
    ==_iff (make_key b l) (make_key c m),
    make_key-injective b c l m hb hc hl hm,
  )

  stored_at-committed :
      (log : BucketOpLog K) (b c : Text) (l m : ℕ) (p : Text) (s : StoredOp)
      → Fits b
      → Fits c
      → l ≤ u64_max
      → m ≤ u64_max
      → K.codec.from_slice p ≡ ok s
      → stored_at K (committed log b l p) c m
        ≡ (if b == c && l == m then some s else stored_at K log c m)
  stored_at-committed log b c l m p s hb hc hl hm d =
      rw
        (
          ops.get_value-insert log.bucket_ops (make_key b l) p (make_key c m),
          key_test b c l m hb hc hl hm,
        )
        (ground (arith, d))

  checksum-committed :
      (log : BucketOpLog K) (b c : BucketId) (l : PgLsn) (p : Text)
      → running_checksum K (committed log b l p) c
        ≡ (if b == c then fold_checksum (running_checksum K log b) p else running_checksum K log c)
  checksum-committed log b c l p =
      rw
        (checksums.get_value-insert log.bucket_checksums b
          (fold_checksum (running_checksum K log b) p) c)
        (ground arith)

  -- For a bucket id and an LSN in range, a call fails with an error and the log is as it was, or it
  -- returns the LSN, stores the op with its time at that bucket and LSN and at no other, and folds
  -- its payload into the running checksum of that bucket and of no other.
  pub append_atomic :
      (io : Faults) (now : ℕ) (log : BucketOpLog K) (b : BucketId) (l : PgLsn) (op : BucketOp)
      → Fits b
      → l ≤ u64_max
      → ((e : SyncError) × (append K io now log b l op ≡ (err e, log)))
        ⊎ ((p : Text) × (K.codec.to_vec (stamped now op) ≡ ok p)
            × ((append K io now log b l op).0 ≡ ok l)
            × ((c : BucketId) (m : PgLsn)
                → Fits c
                → m ≤ u64_max
                → stored_at K (append K io now log b l op).1 c m
                  ≡ (if b == c && l == m then some (stamped now op) else stored_at K log c m))
            × ((c : BucketId)
                → running_checksum K (append K io now log b l op).1 c ≡ (
                    if b == c
                    then fold_checksum (running_checksum K log b) p
                    else running_checksum K log c)))
  append_atomic io now log b l op hb hl = elim (append-cases io now log b l op) [
    | inl failed ↦ inl failed
    | inr (p, written, e) ↦ inr (
      p,
      written,
      ap (λ r. r.0) e,
      λ c m hc hm.
          ap (λ r. stored_at K r.1 c m) e
          ∙ stored_at-committed log b c l m p (stamped now op) hb hc hl hm
              (K.codec.from_slice-to_vec (stamped now op) p written),
      λ c. ap (λ r. running_checksum K r.1 c) e ∙ checksum-committed log b c l p,
    )
  ]

  committed-IsSound :
      (log : BucketOpLog K) (b : BucketId) (p : Text) (s : StoredOp)
      → Fits b
      → s.op.lsn ≤ u64_max
      → K.codec.from_slice p ≡ ok s
      → IsSound K log
      → IsSound K (committed log b s.op.lsn p)
  committed-IsSound log b p s hb hl d sound = record {
    entry = λ k v h.
        let key = make_key b s.op.lsn in
        let g : (if key == k then some p else ops.get_value log.bucket_ops k) ≡ some v =
          sym (ops.get_value-insert log.bucket_ops key p k) ∙ h in
        elim (Bool-cases (key == k)) [
          | inl same ↦
              let w : some p ≡ some v = rw same at g in
              record {
                bucket = b;
                stored = s;
                key = sym ((==_iff key k).0 same);
                decodes = cc (d, w);
                lsn_fits = hl;
                bucket_fits = hb;
              }
          | inr other ↦ sound.entry k v (rw other at g)
        ];
  }

  -- An op that is appended at its own LSN keeps the table sound, whether or not the append succeeds.
  pub append-IsSound :
      (io : Faults) (now : ℕ) (log : BucketOpLog K) (b : BucketId) (op : BucketOp)
      → Fits b
      → op.lsn ≤ u64_max
      → IsSound K log
      → IsSound K (append K io now log b op.lsn op).1
  append-IsSound io now log b op hb hl sound = elim (append-cases io now log b op.lsn op) [
    | inl (e, failed) ↦ rw failed sound
    | inr (p, written, e) ↦ rw e (
        committed-IsSound log b p (stamped now op) hb hl
          (K.codec.from_slice-to_vec (stamped now op) p written) sound)
  ]
