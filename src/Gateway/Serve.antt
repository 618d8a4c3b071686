-- ===== src/Gateway/Serve.antt =====
-- crates/pes-gateway/src/connection.rs: `handle_client_message` and the loop of `serve`.
use prometheus_entity_sync.Base.{
  Text, codes, text_eq, Map, Result, ok, err, Option, none, some, List, [], ◌∷◌, ◌++◌, ℕ, ltb,
  if◌then◌else◌,
}
use prometheus_entity_sync.Core.{BucketId, PgLsn, SyncError, protocol_error}
use prometheus_entity_sync.Oplog.Redb.{Backend}
use prometheus_entity_sync.Oplog.Store.{BucketOpLog, Faults}
use prometheus_entity_sync.Protocol.{keepalive, ClientMessage, subscribe, ack, write, ping}
use prometheus_entity_sync.Gateway.Effects.{
  Env, Event, Conn, ◌>>=◌, ◌>>◌, pure, fail, send_message, send_error, report,
}
use prometheus_entity_sync.Gateway.Connection.{
  shutdown_error_code, Session, Frame, binary, close, other,
}
use prometheus_entity_sync.Gateway.Writes.{handle_write}
use prometheus_entity_sync.Gateway.Deltas.{poll_deltas}

-- `values_mut` of `Ack`.
unfoldable pub raise_lsns : PgLsn → Map BucketId PgLsn → Map BucketId PgLsn
raise_lsns lsn [] = []
raise_lsns lsn ((b, tracked) ∷ m) = (b, if ltb tracked lsn then lsn else tracked) ∷ raise_lsns lsn m

module _ (env : Env) where
  abbrev pub handle_decoded : ℕ → Session → Result Text ClientMessage → Conn Session
  handle_decoded now_ms s (err e) = do report env (protocol_error e); pure s
  handle_decoded now_ms s (ok (ack lsn)) =
      pure (record s { last_seen_lsn = raise_lsns lsn s.last_seen_lsn })
  handle_decoded now_ms s (ok (write entity_type entity_id op)) = do
    handle_write env s entity_type entity_id op
    pure s
  handle_decoded now_ms s (ok ping) = do send_message env (keepalive now_ms); pure s
  handle_decoded now_ms s (ok (subscribe buckets token resume_lsn version)) = do
    report env (protocol_error (codes "Subscribe may only be sent once, at connection start"))
    pure s

  -- The connection goes on after every frame that is handled.
  unfoldable pub handle_client_message : ℕ → Session → Text → Conn Session
  unfolding handle_write raise_lsns
  handle_client_message now_ms s bytes = handle_decoded now_ms s (env.decode_client bytes)

-- What the loop of `serve` waits for. The runtime picks one of those that are ready, in any order.
pub data Input (K : Backend) : Type 0 where
  incoming : Option (Result Text Frame) → Input K
  delta_tick : (BucketId → BucketOpLog K) → Faults → Input K
  keepalive_tick : Input K
  cancelled : Input K

module _ (env : Env) (K : Backend) where
  abbrev pub poll_or_report :
      Result SyncError Session × List Event → Result SyncError (Option Session) × List Event
  poll_or_report (ok s, events) = (ok (some s), events)
  poll_or_report (err e, events) = (err e, (report env e events).1)

  -- The session to go on with, or `none` to return.
  unfoldable pub serve_step : ℕ → Session → Input K → Conn (Option Session)
  unfolding handle_client_message poll_deltas
  serve_step now_ms s (incoming none) = pure none
  serve_step now_ms s (incoming (some (err e))) =
      fail (protocol_error (codes "WebSocket error: " ++ e))
  serve_step now_ms s (incoming (some (ok (binary bytes)))) =
      handle_client_message env now_ms s bytes >>= λ s'. pure (some s')
  serve_step now_ms s (incoming (some (ok close))) = pure none
  serve_step now_ms s (incoming (some (ok other))) = pure (some s)
  serve_step now_ms s (delta_tick log_at io) =
      λ events. poll_or_report (poll_deltas env K log_at io s events)
  serve_step now_ms s keepalive_tick = do send_message env (keepalive now_ms); pure (some s)
  serve_step now_ms s cancelled = λ events.
      (ok none, (send_error env shutdown_error_code (codes "server shutting down") events).1)

  -- The loop over the inputs that come, each with the clock's reading; it stops at a `none`.
  abbrev pub serve_rest : (Session → Conn (Unit {0})) → Option Session → Conn (Unit {0})
  serve_rest loop none = pure tt
  serve_rest loop (some s) = loop s

  unfoldable pub serve : List (ℕ × Input K) → Session → Conn (Unit {0})
  unfolding serve_step
  serve [] s = pure tt
  serve ((now_ms, i) ∷ inputs) s = serve_step now_ms s i >>= serve_rest (serve inputs)
