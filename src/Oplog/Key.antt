-- ===== src/Oplog/Key.antt =====
-- crates/pes-oplog/src/key.rs: the composite keys of the `bucket_ops` table.
pub mod Bytes
pub mod Order
use Prim.Native.Nat.{ℕ, ◌-◌, ◌%◌}
use mathlib.Core.Option.{Option, none, some}
use mathlib.Core.List.{◌++◌}
use prometheus_entity_sync.Base.{Text, length, drop, ltb, if◌then◌else◌}
use prometheus_entity_sync.Core.{u64_max}
use Bytes.{to_be_bytes, from_be_bytes}

abbrev pub lsn_bytes : ℕ
lsn_bytes = 8

abbrev pub max_bucket_id_len : ℕ
max_bucket_id_len = 65535

-- `len() as u16` keeps the low 16 bits; the `debug_assert!` is not part of a release build.
unfoldable pub make_key : Text → ℕ → Text
make_key bucket_id lsn =
    to_be_bytes 2 (length bucket_id % 65536) ++ (bucket_id ++ to_be_bytes 8 lsn)

unfoldable pub make_range_start : Text → ℕ → Text
make_range_start bucket_id from_lsn = make_key bucket_id from_lsn

unfoldable pub make_bucket_range_end : Text → Text
make_bucket_range_end bucket_id = make_key bucket_id u64_max

unfoldable pub lsn_from_key : Text → Option ℕ
lsn_from_key key =
    if ltb (length key) lsn_bytes
    then none
    else some (from_be_bytes (drop (length key - lsn_bytes) key))
