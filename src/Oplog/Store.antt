-- ===== src/Oplog/Store.antt =====
-- crates/pes-oplog/src/store.rs and error.rs: `BucketOpLog`. A call takes the log and returns it
-- beside the result. The clock is the argument `now`. `Faults` says which call of redb or of the
-- runtime fails, if any; a write transaction that is not committed leaves the tables as they were.
pub mod Outcome
pub mod View
pub mod Append
pub mod Scan
pub mod Drain
pub mod Compact
pub mod History
use Prim.Native.Nat.{bit_xor}
use prometheus_entity_sync.Base.{
  Text, codes, Result, ok, err, map_err, ◌>>=◌, ◌>>◌, Option, none, some, List, [], ◌∷◌, ◌++◌, ℕ,
  zero, suc, ◌+◌, ◌-◌, ◌*◌, ◌%◌, ◌^◌, ltb, if◌then◌else◌, Bool, length,
}
use prometheus_entity_sync.Core.{
  SyncError, protocol_error, BucketOp, BucketId, PgLsn, BucketChecksum,
}
use prometheus_entity_sync.Oplog.Key.{
  make_key, make_range_start, make_bucket_range_end, lsn_from_key,
}
use prometheus_entity_sync.Oplog.Redb.{Backend, StoredOp, OrderedTable, Codec}

-- error.rs; the errors of redb are kept as their messages.
pub data OpLogError : Type 0 where
  database_open : Text → OpLogError
  transaction : Text → OpLogError
  table : Text → OpLogError
  storage : Text → OpLogError
  commit_failed : Text → OpLogError
  codec : Text → OpLogError
  task : Text → OpLogError

-- The `Display` that `thiserror` derives from the attributes.
pub display : OpLogError → Text
display (database_open e) = codes "failed to open redb database: " ++ e
display (transaction e) = codes "redb transaction error: " ++ e
display (table e) = codes "redb table error: " ++ e
display (storage e) = codes "redb storage error: " ++ e
display (commit_failed e) = codes "redb commit error: " ++ e
display (codec e) = codes "MessagePack (de)serialization error: " ++ e
display (task e) = codes "background task error: " ++ e

unfoldable pub to_sync_error : OpLogError → SyncError
to_sync_error e = protocol_error (display e)

-- The places where redb or the runtime may fail. `read_entry k` is the step of an iterator that
-- would give the entry of `k`.
pub data Call : Type 0 where
  spawn_blocking begin_write begin_read open_ops open_checksums : Call
  insert_op get_checksum insert_checksum commit range_ops iter_ops : Call
  read_entry remove_op : Text → Call

abbrev pub Faults : Type 0
Faults = Call → Option OpLogError

abbrev pub attempt : Option OpLogError → Result OpLogError (Unit {0})
attempt none = ok tt
attempt (some e) = err e

abbrev pub u64_mod : ℕ
u64_mod = 18446744073709551616

abbrev pub fnv_prime : ℕ
fnv_prime = 0x100000001b3

abbrev pub fnv_offset : ℕ
fnv_offset = 0xcbf29ce484222325

unfoldable pub fold_bytes : ℕ → Text → ℕ
fold_bytes hash [] = hash
fold_bytes hash (byte ∷ payload) = fold_bytes (bit_xor hash byte * fnv_prime % u64_mod) payload

unfoldable pub fold_checksum : ℕ → Text → ℕ
unfolding fold_bytes
fold_checksum prev payload = fold_bytes (bit_xor prev fnv_offset) payload

abbrev pub unwrap_or_zero : Option ℕ → ℕ
unwrap_or_zero none = 0
unwrap_or_zero (some n) = n

pub record BucketOpLog (K : Backend) : Type 0 where
  pub bucket_ops : OrderedTable.Table K.ops
  pub bucket_checksums : OrderedTable.Table K.checksums
  pub compaction_ttl : ℕ

module _ (K : Backend) where
  open K use {ops, checksums}

  -- `from_database`, on a new database.
  pub empty_log : ℕ → BucketOpLog K
  empty_log ttl = record {
    bucket_ops = ops.empty;
    bucket_checksums = checksums.empty;
    compaction_ttl = ttl;
  }

  -- The closure that `append` runs: one write transaction over both tables.
  unfoldable pub append_transaction :
      Faults → BucketOpLog K → BucketId → PgLsn → Text → Result OpLogError (BucketOpLog K)
  append_transaction io log bucket_id lsn payload = do
    attempt (io spawn_blocking)
    attempt (io begin_write)
    attempt (io open_ops)
    attempt (io insert_op)
    attempt (io open_checksums)
    attempt (io get_checksum)
    let prev = unwrap_or_zero (checksums.get_value log.bucket_checksums bucket_id)
    attempt (io insert_checksum)
    attempt (io commit)
    ok (record log {
      bucket_ops = ops.insert log.bucket_ops (make_key bucket_id lsn) payload;
      bucket_checksums =
          checksums.insert log.bucket_checksums bucket_id (fold_checksum prev payload);
    })

  unfoldable pub append_payload :
      Faults
      → BucketOpLog K
      → BucketId
      → PgLsn
      → Result OpLogError Text
      → Result SyncError PgLsn × BucketOpLog K
  append_payload io log bucket_id lsn (err e) = (err (to_sync_error e), log)
  append_payload io log bucket_id lsn (ok payload) =
      elim (append_transaction io log bucket_id lsn payload) [
        | ok log' ↦ (ok lsn, log')
        | err e ↦ (err (to_sync_error e), log)
      ]

  unfoldable pub append :
      Faults
      → ℕ
      → BucketOpLog K
      → BucketId
      → PgLsn
      → BucketOp
      → Result SyncError PgLsn × BucketOpLog K
  append io now log bucket_id lsn op =
      append_payload io log bucket_id lsn
        (map_err codec (K.codec.to_vec (record { op = op; appended_at_unix_secs = now })))

  -- The loop of `drain_since`: keys too short for an LSN are passed over.
  unfoldable pub read_ops : Faults → List (Text × Text) → Result OpLogError (List BucketOp)
  read_ops io [] = ok []
  read_ops io ((k, v) ∷ entries) = do
    attempt (io (read_entry k))
    elim (lsn_from_key k) [
      | none ↦ read_ops io entries
      | some lsn ↦ do
        stored ← map_err codec (K.codec.from_slice v)
        rest ← read_ops io entries
        ok (stored.op ∷ rest)
    ]

  unfoldable pub drain_since :
      Faults → BucketOpLog K → BucketId → PgLsn → Result SyncError (List BucketOp)
  drain_since io log bucket_id from_lsn = map_err to_sync_error (do
    attempt (io spawn_blocking)
    attempt (io begin_read)
    attempt (io open_ops)
    attempt (io range_ops)
    read_ops io (
        ops.range log.bucket_ops (make_range_start bucket_id from_lsn)
          (make_bucket_range_end bucket_id)))

  pub checksum : Faults → BucketOpLog K → BucketId → Result SyncError BucketChecksum
  checksum io log bucket_id = map_err to_sync_error (do
    attempt (io spawn_blocking)
    attempt (io begin_read)
    attempt (io open_checksums)
    attempt (io get_checksum)
    ok (unwrap_or_zero (checksums.get_value log.bucket_checksums bucket_id)))

  -- The scan of `compact`: the keys of the ops appended before the cutoff.
  unfoldable pub keys_to_remove : Faults → ℕ → List (Text × Text) → Result OpLogError (List Text)
  keys_to_remove io cutoff [] = ok []
  keys_to_remove io cutoff ((k, v) ∷ entries) = do
    attempt (io (read_entry k))
    stored ← map_err codec (K.codec.from_slice v)
    rest ← keys_to_remove io cutoff entries
    ok (if ltb stored.appended_at_unix_secs cutoff then k ∷ rest else rest)

  -- Its second loop, with the count of the ops removed.
  unfoldable pub remove_keys :
      Faults
      → OrderedTable.Table ops
      → ℕ
      → List Text
      → Result OpLogError (ℕ × OrderedTable.Table ops)
  remove_keys io t removed [] = ok (removed, t)
  remove_keys io t removed (k ∷ keys) = do
    attempt (io (remove_op k))
    remove_keys io (ops.remove t k) (removed + 1) keys

  unfoldable pub compact_transaction :
      Faults → ℕ → BucketOpLog K → Result OpLogError (ℕ × BucketOpLog K)
  compact_transaction io cutoff log = do
    attempt (io spawn_blocking)
    attempt (io begin_write)
    attempt (io open_ops)
    attempt (io iter_ops)
    keys ← keys_to_remove io cutoff (ops.iter log.bucket_ops)
    done ← remove_keys io log.bucket_ops 0 keys
    attempt (io commit)
    ok (done.0, record log { bucket_ops = done.1 })

  unfoldable pub compact_result :
      BucketOpLog K → Result OpLogError (ℕ × BucketOpLog K) → Result SyncError ℕ × BucketOpLog K
  compact_result log (ok (removed, log')) = (ok removed, log')
  compact_result log (err e) = (err (to_sync_error e), log)

  unfoldable pub compact : Faults → ℕ → BucketOpLog K → Result SyncError ℕ × BucketOpLog K
  compact io now log = compact_result log (compact_transaction io (now - log.compaction_ttl) log)
