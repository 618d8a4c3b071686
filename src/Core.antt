-- ===== src/Core.antt =====
-- crates/pes-core/src/types.rs: the domain types that every crate shares. `PgLsn`, `BucketId` and
-- `BucketChecksum` are newtypes and stand here as what they wrap, `u64` as a number.
pub mod Values
use Prim.Native.Nat.{ℕ}
use mathlib.Core.Option.{Option}
use mathlib.Core.List.{List}
use prometheus_entity_sync.Base.{Text, Map}
use Values.{Json}

abbrev pub PgLsn : Type 0
PgLsn = ℕ

abbrev pub BucketId : Type 0
BucketId = Text

abbrev pub BucketChecksum : Type 0
BucketChecksum = ℕ

abbrev pub u64_max : ℕ
u64_max = 18446744073709551615

pub record SyncRule : Type 0 where
  pub id : Text
  pub description : Option Text
  pub parameters : List Text
  pub parameter_queries : Map Text Text
  pub data_queries : Map Text Text

pub record BucketAssignment : Type 0 where
  pub bucket_id : BucketId
  pub rule_id : Text
  pub parameters : Map Text Json
  pub data_queries : Map Text Text

pub record TokenClaims : Type 0 where
  pub sub : Text
  pub tenant_id : Option Text
  pub exp : ℕ
  pub custom : Map Text Json

pub data Op : Type 0 where
  upsert : Json → Op
  delete : Op
  crdt_patch : Text → Op

pub record BucketOp : Type 0 where
  pub lsn : PgLsn
  pub bucket_id : BucketId
  pub entity_type : Text
  pub entity_id : Text
  pub op : Op

-- An error of `sqlx` is kept as its message.
pub data SyncError : Type 0 where
  bucket_assignment_failed : Text → SyncError
  lsn_gap : PgLsn → PgLsn → SyncError
  checksum_mismatch : BucketChecksum → BucketChecksum → SyncError
  protocol_error : Text → SyncError
  auth_error : Text → SyncError
  database : Text → SyncError
