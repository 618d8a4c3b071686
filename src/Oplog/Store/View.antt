-- ===== src/Oplog/Store/View.antt =====
-- The log as a client thinks of it: for each bucket a partial map from LSNs to stored ops, and a
-- running checksum. `IsSound` says that the table holds nothing else.
use prometheus_entity_sync.Base.{Text, length, Result, ok, err, Option, none, some, ◌≡◌, ℕ, ◌≤◌}
use prometheus_entity_sync.Core.{u64_max}
use prometheus_entity_sync.Oplog.Key.{make_key, max_bucket_id_len}
use prometheus_entity_sync.Oplog.Redb.{Backend, StoredOp}
use prometheus_entity_sync.Oplog.Store.{BucketOpLog, unwrap_or_zero}

abbrev read {ℓ} : {E : Type ℓ} → Result E StoredOp → Option StoredOp
read (ok s) = some s
read (err e) = none

abbrev pub Fits : Text → Type 0
Fits b = length b ≤ max_bucket_id_len

module _ (K : Backend) where
  open K use {ops, checksums}

  abbrev pub decode_value : Option Text → Option StoredOp
  decode_value none = none
  decode_value (some v) = read (K.codec.from_slice v)

  abbrev pub stored_at : BucketOpLog K → Text → ℕ → Option StoredOp
  stored_at log b l = decode_value (ops.get_value log.bucket_ops (make_key b l))

  abbrev pub running_checksum : BucketOpLog K → Text → ℕ
  running_checksum log b = unwrap_or_zero (checksums.get_value log.bucket_checksums b)

  -- The entry is an op, stored under the key of its LSN.
  pub record IsEntry (k v : Text) : Type 0 where
    pub bucket : Text
    pub stored : StoredOp
    pub key : k ≡ make_key bucket stored.op.lsn
    pub decodes : K.codec.from_slice v ≡ ok stored
    pub lsn_fits : stored.op.lsn ≤ u64_max
    pub bucket_fits : Fits bucket

  pub record IsSound (log : BucketOpLog K) : Type 0 where
    pub entry : (k v : Text) → ops.get_value log.bucket_ops k ≡ some v → IsEntry k v

  pub IsSound-empty :
      (ttl : ℕ)
      → IsSound (record {
        bucket_ops = ops.empty;
        bucket_checksums = checksums.empty;
        compaction_ttl = ttl;
      })
  IsSound-empty ttl = record { entry = λ k v h. cc (ops.get_value-empty k) }
