-- ===== src/Gateway/Effects.antt =====
-- crates/pes-gateway/src/connection.rs: what a connection does to the world. The events are listed
-- in order, also those that fail; the answers may depend on all events before.
use prometheus_entity_sync.Base.{Text, Result, ok, err, Option, List, [], ◌∷◌, ◌++◌, ℕ, map_err}
use prometheus_entity_sync.Core.{SyncError, BucketAssignment, database}
use prometheus_entity_sync.Core.Values.{Json}
use prometheus_entity_sync.Protocol.{ServerMessage, ClientMessage, error}
use prometheus_entity_sync.Gateway.Redaction.{redact, wire_code}

-- A value bound to `$n` of a statement.
pub data Bind : Type 0 where
  bind_json : Json → Bind
  bind_text : Text → Bind
  bind_bytes : Text → Bind

pub data Event : Type 0 where
  sent : ServerMessage → Event
  fetched : Text → List Bind → Event
  executed : Text → List Bind → Event

-- The socket, Postgres, MessagePack, the CRDT crate, and the batches of a snapshot stream.
pub record Env : Type 0 where
  pub decode_client : Text → Result Text ClientMessage
  pub send : List Event → ServerMessage → Result SyncError (Unit {0})
  pub fetch_scalar : List Event → Text → List Bind → Result Text (Option Text)
  pub execute : List Event → Text → List Bind → Result Text (Unit {0})
  pub apply_delta : Text → Text → Result Text Text
  pub snapshot_batches : BucketAssignment → List (Result SyncError (List Json))

abbrev pub Conn : Type 0 → Type 0
Conn A = List Event → Result SyncError A × List Event

abbrev pub continue_conn :
    {A B : Type 0}
    → Result SyncError A × List Event
    → (A → Conn B)
    → Result SyncError B × List Event
continue_conn (ok a, events) f = f a events
continue_conn (err e, events) f = (err e, events)

infixl 5 ◌>>=◌ ◌>>◌
abbrev pub ◌>>=◌ : {A B : Type 0} → Conn A → (A → Conn B) → Conn B
m >>= f = λ events. continue_conn (m events) f

abbrev pub ◌>>◌ : {B : Type 0} → Conn (Unit {0}) → Conn B → Conn B
m >> k = m >>= λ _. k

abbrev pub pure : {A : Type 0} → A → Conn A
pure a events = (ok a, events)

abbrev pub fail : {A : Type 0} → SyncError → Conn A
fail e events = (err e, events)

abbrev pub lift : {A : Type 0} → Result SyncError A → Conn A
lift r events = (r, events)

module _ (env : Env) where
  abbrev pub send_message : ServerMessage → Conn (Unit {0})
  send_message m events = (env.send events m, events ++ sent m ∷ [])

  abbrev pub send_error : ℕ → Text → Conn (Unit {0})
  send_error code message = send_message (error code message)

  -- `GatewayErrorResponse::from` and then `send_error`.
  abbrev pub report : SyncError → Conn (Unit {0})
  report e = send_error (wire_code (redact e).code) (redact e).message

  abbrev pub fetch_optional : Text → List Bind → Conn (Option Text)
  fetch_optional sql binds events =
      (map_err database (env.fetch_scalar events sql binds), events ++ fetched sql binds ∷ [])

  abbrev pub run_statement : Text → List Bind → Conn (Unit {0})
  run_statement sql binds events =
      (map_err database (env.execute events sql binds), events ++ executed sql binds ∷ [])
