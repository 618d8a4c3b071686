-- ===== src/Gateway/Writes.antt =====
-- crates/pes-gateway/src/connection.rs: `handle_write` and what it calls.
pub mod Emits
pub mod Guard
pub mod Sql
use prometheus_entity_sync.Base.{
  Text, codes, text_eq, Map, get, insert, contains_key, keys, map, length, keep_if, Result, ok, err,
  map_err, Option, none, some, List, [], ◌∷◌, ◌++◌, ℕ, ◌+◌, ◌%◌, ltb, if◌then◌else◌, Bool, true,
  false, not, ◌==◌,
}
use prometheus_entity_sync.Core.{
  BucketAssignment, BucketId, BucketOp, Op, upsert, delete, crdt_patch, PgLsn, SyncError,
  protocol_error, auth_error, TokenClaims,
}
use prometheus_entity_sync.Core.Values.{Json}
use prometheus_entity_sync.Oplog.Redb.{Backend}
use prometheus_entity_sync.Oplog.Store.{BucketOpLog, Faults, drain_since, checksum, u64_mod}
use prometheus_entity_sync.Protocol.{
  ServerMessage, snapshot_begin, snapshot_batch, snapshot_complete, delta, keepalive, ClientMessage,
  subscribe, ack, write, ping, protocol_version,
}
use prometheus_entity_sync.Rules.Resolver.{World}
use prometheus_entity_sync.Rules.Assigner.{BucketAssigner, Clock, Reply, assign}
use prometheus_entity_sync.Gateway.Effects.{
  Env, Event, Bind, bind_json, bind_text, bind_bytes, Conn, continue_conn, ◌>>=◌, ◌>>◌, pure, fail,
  lift, send_message, send_error, report, fetch_optional, run_statement,
}
use prometheus_entity_sync.Gateway.Connection.{Session, Frame, binary, close, other}

abbrev pub scope_statement : Text → Text
scope_statement data_query =
    codes "SELECT 1 FROM (" ++ (data_query ++ codes ") AS sq WHERE sq.id::text = $1 LIMIT 1")

abbrev pub update_statement : Text → Text
update_statement entity_type =
    codes "UPDATE " ++ (entity_type ++ codes " SET payload = $1 WHERE id::text = $2")

abbrev pub delete_statement : Text → Text
delete_statement entity_type = codes "DELETE FROM " ++ (entity_type ++ codes " WHERE id::text = $1")

abbrev pub crdt_select : Text → Text
crdt_select entity_type =
    codes "SELECT crdt_state FROM " ++ (entity_type ++ codes " WHERE id::text = $1")

abbrev pub crdt_update : Text → Text
crdt_update entity_type =
    codes "UPDATE " ++ (entity_type ++ codes " SET crdt_state = $1 WHERE id::text = $2")

abbrev pub or_empty : Option Text → Text
or_empty none = []
or_empty (some bytes) = bytes

abbrev pub is_some {ℓ} : {A : Type ℓ} → Option A → Bool
is_some none = false
is_some (some a) = true

-- `values().find(…)`, with the query that the assignment has for the entity type.
abbrev or_query :
    Text
    → Option Text
    → Option (BucketAssignment × Text)
    → BucketAssignment
    → Option (BucketAssignment × Text)
or_query entity_type none rest a = rest
or_query entity_type (some query) rest a = some (a, query)

unfoldable pub find_writable :
    Text → Map BucketId BucketAssignment → Option (BucketAssignment × Text)
find_writable entity_type [] = none
find_writable entity_type ((b, a) ∷ m) =
    or_query entity_type (get a.data_queries entity_type) (find_writable entity_type m) a

module _ (env : Env) where
  abbrev crdt_failed : Text → SyncError
  crdt_failed e = protocol_error (codes "CRDT patch apply failed: " ++ e)

  unfoldable pub apply_write : Text → Text → Op → Conn (Unit {0})
  apply_write entity_type entity_id (upsert value) =
      run_statement env (update_statement entity_type) (bind_json value ∷ bind_text entity_id ∷ [])
  apply_write entity_type entity_id delete =
      run_statement env (delete_statement entity_type) (bind_text entity_id ∷ [])
  apply_write entity_type entity_id (crdt_patch bytes) = do
    existing ← fetch_optional env (crdt_select entity_type) (bind_text entity_id ∷ [])
    merged ← lift (map_err crdt_failed (env.apply_delta (or_empty existing) bytes))
    run_statement env (crdt_update entity_type) (bind_bytes merged ∷ bind_text entity_id ∷ [])

  unfoldable pub row_is_within_scope : Text → Text → Conn Bool
  row_is_within_scope data_query entity_id = do
    row ← fetch_optional env (scope_statement data_query) (bind_text entity_id ∷ [])
    pure (is_some row)

  -- A failed write is reported and the connection goes on.
  abbrev pub reported :
      Result SyncError (Unit {0}) × List Event → Result SyncError (Unit {0}) × List Event
  reported (ok _, events) = (ok tt, events)
  reported (err e, events) = report env e events

  abbrev pub type_denied : Text → SyncError
  type_denied entity_type =
      auth_error (codes "not authorized to write entity type '" ++ (entity_type ++ codes "'"))

  abbrev pub row_denied : Text → Text → SyncError
  row_denied entity_type entity_id = auth_error (
      codes "not authorized to write entity '"
      ++ (entity_type ++ (codes "/" ++ (entity_id ++ codes "'"))))

  abbrev pub write_if_owned : Text → Text → Op → Bool → Conn (Unit {0})
  write_if_owned entity_type entity_id op true events =
      reported (apply_write entity_type entity_id op events)
  write_if_owned entity_type entity_id op false events =
      report env (row_denied entity_type entity_id) events

  abbrev pub write_with : Text → Text → Op → Option (BucketAssignment × Text) → Conn (Unit {0})
  write_with entity_type entity_id op none = report env (type_denied entity_type)
  write_with entity_type entity_id op (some (a, data_query)) =
      row_is_within_scope data_query entity_id >>= write_if_owned entity_type entity_id op

  unfoldable pub handle_write : Session → Text → Text → Op → Conn (Unit {0})
  unfolding apply_write row_is_within_scope find_writable
  handle_write s entity_type entity_id op =
      write_with entity_type entity_id op (find_writable entity_type s.authorized_buckets)
