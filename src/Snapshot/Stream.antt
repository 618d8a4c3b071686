-- ===== src/Snapshot/Stream.antt =====
-- crates/pes-snapshot/src/stream.rs: `SnapshotStream`. Postgres is an argument: its answer may depend on
-- how many statements the stream has run before. A limit is far below 2^63, and stands as it is.
pub mod Lists
pub mod Pages
pub mod Whole
pub mod Rows
pub mod Keyset
pub mod Turns
pub mod Changing
pub mod Stuck
use prometheus_entity_sync.Base.{
  Text, codes, text_beq, Map, Result, ok, err, map_err, ◌>>=◌, Option, none, some, List, [], ◌∷◌,
  ◌++◌, ℕ, zero, suc, ◌+◌, ltb, length, if◌then◌else◌, Bool, true, false, ◌||◌,
}
use prometheus_entity_sync.Core.{BucketAssignment, BucketId, BucketChecksum, SyncError, database}
use prometheus_entity_sync.Core.Values.{Json, null, bool, number, string, array, object}
use prometheus_entity_sync.Snapshot.Checksum.{get_field, checksum_rows}

abbrev pub default_batch_size : ℕ
default_batch_size = 10000

pub record SnapshotBatch : Type 0 where
  pub bucket_id : BucketId
  pub table_name : Text
  pub rows : List Json
  pub offset : ℕ
  pub is_last : Bool
  pub batch_checksum : BucketChecksum

unfoldable pub row_id_as_string : Json → Option Text
row_id_as_string (string s) = some s
row_id_as_string (number n) = some n
row_id_as_string _ = none

pub data IdCast : Type 0 where
  numeric_cast text_cast : IdCast

unfoldable pub as_sql : IdCast → Text
as_sql numeric_cast = codes "numeric"
as_sql text_cast = codes "text"

-- The two kinds of statements: the type of the ids, and a page for a cursor and a limit. A row whose
-- column cannot be read is an error of its own.
pub record Postgres : Type 0 where
  pub fetch_type : ℕ → Text → Result Text (Option (Result Text Text))
  pub fetch_all : ℕ → Text → Option Text → ℕ → Result Text (List (Result Text Json))
  pub display_json : Json → Text
  pub xxh3 : Text → ℕ

unfoldable pub cast_of_type : Text → IdCast
cast_of_type t =
    if text_beq t (codes "smallint")
      || (text_beq t (codes "integer")
          || (text_beq t (codes "bigint")
              || (text_beq t (codes "numeric")
                  || (text_beq t (codes "real") || text_beq t (codes "double precision")))))
    then numeric_cast
    else text_cast

pub type_query : Text → Text
type_query query =
    codes "SELECT pg_typeof(sq.id)::text AS id_type FROM (" ++ (query ++ codes ") AS sq LIMIT 1")

pub page_query : Text → Text → Text
page_query query cast =
    codes "SELECT row_to_json(sq) AS row_data FROM ("
    ++ (query
        ++ (codes ") AS sq WHERE ($1::text IS NULL OR sq.id::"
            ++ (cast ++ (codes " > ($1::text)::" ++ (cast ++ codes ") ORDER BY sq.id LIMIT $2")))))

unfoldable pub last_row : List Json → Option Json
last_row [] = none
last_row (row ∷ []) = some row
last_row (row ∷ next ∷ rows) = last_row (next ∷ rows)

abbrev pub and_then {ℓ κ} : {A : Type ℓ} {B : Type κ} → Option A → (A → Option B) → Option B
and_then none f = none
and_then (some a) f = f a

abbrev pub id_of : Json → Option Text
id_of row = and_then (get_field (codes "id") row) row_id_as_string

abbrev pub next_cursor : List Json → Option Text
next_cursor rows = and_then (last_row rows) id_of

-- How a stream ends: an error ends it, and the fuel of the model may run out.
pub data Outcome : Type 0 where
  finished out_of_fuel : Outcome
  failed : SyncError → Outcome

-- What the stream yields, how it ends, and the number of statements run until then.
pub record Run : Type 0 where
  pub batches : List SnapshotBatch
  pub outcome : Outcome
  pub statements : ℕ

abbrev stopped : Outcome → ℕ → Run
stopped o k = record { batches = []; outcome = o; statements = k }

abbrev pub yields : SnapshotBatch → Run → Run
yields b r = record r { batches = b ∷ r.batches }

-- `r`, and then `rest` if `r` came to its end.
abbrev resumed : Run → Run → Run
resumed r s = record s { batches = r.batches ++ s.batches }

abbrev pub then_run : Run → Outcome → (ℕ → Run) → Run
then_run r finished rest = resumed r (rest r.statements)
then_run r out_of_fuel rest = r
then_run r (failed e) rest = r

abbrev pub all_read : List (Result Text Json) → Result SyncError (List Json)
all_read [] = ok []
all_read (r ∷ rs) = map_err database r >>= λ row. all_read rs >>= λ rows. ok (row ∷ rows)

-- No row to tell the type by: text.
abbrev pub cast_of_answer : Result Text (Option (Result Text Text)) → Result SyncError IdCast
cast_of_answer (err e) = err (database e)
cast_of_answer (ok none) = ok text_cast
cast_of_answer (ok (some r)) = map_err database r >>= λ t. ok (cast_of_type t)

module _ (pg : Postgres) (batch_size : ℕ) where
  unfoldable pub detect_id_cast : ℕ → Text → Result SyncError IdCast
  unfolding cast_of_type
  detect_id_cast k query = cast_of_answer (pg.fetch_type k (type_query query))

  unfoldable pub fetch_page : ℕ → Text → Option Text → IdCast → Result SyncError (List Json)
  unfolding as_sql
  fetch_page k query cursor id_cast =
      map_err database (pg.fetch_all k (page_query query (as_sql id_cast)) cursor batch_size)
      >>= all_read

  abbrev pub batch_of : BucketAssignment → Text → List Json → ℕ → SnapshotBatch
  batch_of a table_name rows offset = record {
    bucket_id = a.bucket_id;
    table_name = table_name;
    rows = rows;
    offset = offset;
    is_last = ltb (length rows) batch_size;
    batch_checksum = checksum_rows pg.display_json pg.xxh3 rows;
  }

  -- One page, and the next ones unless it is the last.
  abbrev pub with_page :
      BucketAssignment → Text → ℕ → (Option Text → Run) → ℕ → Result SyncError (List Json) → Run
  with_page a table_name k rest offset (err e) = stopped (failed e) k
  with_page a table_name k rest offset (ok rows) =
      yields (batch_of a table_name rows offset)
        (if ltb (length rows) batch_size then stopped finished k else rest (next_cursor rows))

  unfoldable pub page_loop : ℕ → BucketAssignment → Text → Text → IdCast → ℕ → Option Text → ℕ → Run
  unfolding fetch_page last_row row_id_as_string
  page_loop zero a table_name query id_cast k cursor offset = stopped out_of_fuel k
  page_loop (suc fuel) a table_name query id_cast k cursor offset =
      with_page a table_name (k + 1)
        (λ c. page_loop fuel a table_name query id_cast (k + 1) c (offset + 1)) offset
        (fetch_page k query cursor id_cast)

  abbrev pub with_cast : ℕ → BucketAssignment → Text → Text → ℕ → Result SyncError IdCast → Run
  with_cast fuel a table_name query k (err e) = stopped (failed e) k
  with_cast fuel a table_name query k (ok id_cast) =
      page_loop fuel a table_name query id_cast k none 0

  unfoldable pub stream_query : ℕ → BucketAssignment → Text → Text → ℕ → Run
  unfolding detect_id_cast page_loop
  stream_query fuel a table_name query k =
      with_cast fuel a table_name query (k + 1) (detect_id_cast k query)

  unfoldable pub stream_queries : ℕ → BucketAssignment → Map Text Text → ℕ → Run
  unfolding stream_query
  stream_queries fuel a [] k = stopped finished k
  stream_queries fuel a ((table_name, query) ∷ queries) k =
      let r = stream_query fuel a table_name query k in
      then_run r r.outcome (stream_queries fuel a queries)

  unfoldable pub stream : ℕ → List BucketAssignment → ℕ → Run
  unfolding stream_queries
  stream fuel [] k = stopped finished k
  stream fuel (a ∷ as') k =
      let r = stream_queries fuel a a.data_queries k in then_run r r.outcome (stream fuel as')
