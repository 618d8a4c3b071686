-- ===== src/Snapshot/Checksum.antt =====
-- crates/pes-snapshot/src/checksum.rs. The hasher is fed piece by piece; its digest is a function of
-- the bytes fed to it, which is an argument, as is the `Display` of JSON values.
use prometheus_entity_sync.Base.{
  Text, codes, text_beq, Option, none, some, List, [], ◌∷◌, ◌++◌, ℕ, if◌then◌else◌, Bool, true,
  false,
}
use prometheus_entity_sync.Core.{BucketChecksum}
use prometheus_entity_sync.Core.Values.{
  Json, null, bool, number, string, array, object, Fields, end, field,
}
use prometheus_entity_sync.Oplog.Key.Bytes.{to_be_bytes}

-- `Value::get`: a field of an object, and nothing of another value.
unfoldable pub field_of : Text → Fields → Option Json
field_of name end = none
field_of name (field k v rest) = if text_beq k name then some v else field_of name rest

unfoldable pub get_field : Text → Json → Option Json
unfolding field_of
get_field name (object fields) = field_of name fields
get_field name _ = none

abbrev byte_of_bool : Bool → ℕ
byte_of_bool true = 1
byte_of_bool false = 0

module _ (display_json : Json → Text) where
  unfoldable pub hash_json_scalar : Json → Text
  hash_json_scalar (string s) = s
  hash_json_scalar (number n) = n
  hash_json_scalar (bool b) = byte_of_bool b ∷ []
  hash_json_scalar null = codes "null"
  hash_json_scalar (array items) = display_json (array items)
  hash_json_scalar (object fields) = display_json (object fields)

  abbrev hash_optional : Option Json → Text
  hash_optional none = []
  hash_optional (some v) = hash_json_scalar v

  unfoldable pub hash_row_identity : Json → Text
  unfolding hash_json_scalar get_field
  hash_row_identity row =
      hash_optional (get_field (codes "id") row)
      ++ (b'|' ∷ (hash_optional (get_field (codes "_version") row) ++ b';' ∷ []))

  -- All that `checksum_rows` feeds to the hasher.
  unfoldable pub rows_input : List Json → Text
  unfolding hash_row_identity
  rows_input [] = []
  rows_input (row ∷ rows) = hash_row_identity row ++ rows_input rows

  unfoldable pub checksum_rows : (Text → ℕ) → List Json → BucketChecksum
  unfolding rows_input
  checksum_rows xxh3 rows = xxh3 (rows_input rows)

reversed : Text → Text
reversed [] = []
reversed (c ∷ s) = reversed s ++ c ∷ []

unfoldable pub to_le_bytes : ℕ → Text
unfolding reversed
to_le_bytes n = reversed (to_be_bytes 8 n)

unfoldable pub batches_input : List BucketChecksum → Text
unfolding to_le_bytes
batches_input [] = []
batches_input (c ∷ checksums) = to_le_bytes c ++ batches_input checksums

unfoldable pub checksum_batches : (Text → ℕ) → List BucketChecksum → BucketChecksum
unfolding batches_input
checksum_batches xxh3 checksums = xxh3 (batches_input checksums)
