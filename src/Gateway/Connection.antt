-- ===== src/Gateway/Connection.antt =====
-- crates/pes-gateway/src/connection.rs: the handshake, the snapshots, the writes and the polling of
-- one connection. The JWT validator's answer, the clocks and the log as each bucket's scan finds it
-- are arguments. `lsn.0 + 1` wraps, as release builds do.
pub mod Authorized
use prometheus_entity_sync.Base.{
  Text, codes, text_eq, Map, get, insert, contains_key, keys, map, length, keep_if, Result, ok, err,
  map_err, Option, none, some, List, [], ◌∷◌, ◌++◌, ℕ, ◌+◌, ◌%◌, ltb, if◌then◌else◌, Bool, true,
  false, not, ◌==◌,
}
use prometheus_entity_sync.Core.{
  BucketAssignment, BucketId, BucketOp, Op, upsert, delete, crdt_patch, PgLsn, SyncError,
  protocol_error, auth_error, TokenClaims,
}
use prometheus_entity_sync.Core.Values.{Json}
use prometheus_entity_sync.Oplog.Redb.{Backend}
use prometheus_entity_sync.Oplog.Store.{BucketOpLog, Faults, drain_since, checksum, u64_mod}
use prometheus_entity_sync.Protocol.{
  ServerMessage, snapshot_begin, snapshot_batch, snapshot_complete, delta, keepalive, ClientMessage,
  subscribe, ack, write, ping, protocol_version,
}
use prometheus_entity_sync.Rules.Resolver.{World}
use prometheus_entity_sync.Rules.Assigner.{BucketAssigner, Clock, Reply, assign}
use prometheus_entity_sync.Gateway.Effects.{
  Env, Event, Bind, bind_json, bind_text, bind_bytes, Conn, continue_conn, ◌>>=◌, ◌>>◌, pure, fail,
  lift, send_message, send_error, report, fetch_optional, run_statement,
}

abbrev pub shutdown_error_code : ℕ
shutdown_error_code = 1001

pub data Frame : Type 0 where
  binary : Text → Frame
  close other : Frame

pub record Session : Type 0 where
  pub authorized_buckets : Map BucketId BucketAssignment
  pub last_seen_lsn : Map BucketId PgLsn

unfoldable pub is_requested : List Text → Text → Bool
is_requested [] rule_id = false
is_requested (b ∷ buckets) rule_id = if b == rule_id then true else is_requested buckets rule_id

-- The loop of `handshake` over the assignments.
unfoldable pub authorize :
    List Text
    → List BucketAssignment
    → Map BucketId BucketAssignment
    → Map BucketId BucketAssignment
unfolding is_requested
authorize requested [] m = m
authorize requested (a ∷ as') m =
    if is_requested requested a.rule_id
    then authorize requested as' (insert m a.bucket_id a)
    else authorize requested as' m

resume_from : PgLsn → List BucketId → Map BucketId PgLsn → Map BucketId PgLsn
resume_from lsn [] m = m
resume_from lsn (b ∷ bs) m = resume_from lsn bs (insert m b lsn)

unfoldable pub initial_lsns : Option PgLsn → Map BucketId BucketAssignment → Map BucketId PgLsn
unfolding resume_from
initial_lsns none authorized = []
initial_lsns (some lsn) authorized = resume_from lsn (keys authorized) []

abbrev pub session_for : List Text → Option PgLsn → List BucketAssignment → Session
session_for requested resume_lsn assignments =
    let authorized = authorize requested assignments [] in
    record { authorized_buckets = authorized; last_seen_lsn = initial_lsns resume_lsn authorized }

abbrev subscribed :
    BucketAssigner
    → (TokenClaims → Reply)
    → List Text
    → Option PgLsn
    → Result SyncError TokenClaims
    → Result SyncError Session × BucketAssigner
subscribed a ask_buckets requested resume_lsn (err e) = (err e, a)
subscribed a ask_buckets requested resume_lsn (ok claims) =
    let r = ask_buckets claims in
    (
      elim r.result [ ok as' ↦ ok (session_for requested resume_lsn as') | err e ↦ err e ],
      r.assigner,
    )

abbrev first_message :
    BucketAssigner
    → (TokenClaims → Reply)
    → (Text → Result SyncError TokenClaims)
    → Result Text ClientMessage
    → Result SyncError Session × BucketAssigner
first_message a ask_buckets validate (err e) =
    (err (protocol_error (codes "malformed Subscribe: " ++ e)), a)
first_message a ask_buckets validate (ok (subscribe requested token resume_lsn version)) =
    subscribed a ask_buckets requested resume_lsn (validate token)
first_message a ask_buckets validate (ok _) =
    (err (protocol_error (codes "first message must be Subscribe")), a)

module _ (env : Env) (world : World) where
  unfoldable pub handshake :
      Clock
      → ℕ
      → BucketAssigner
      → (Text → Result SyncError TokenClaims)
      → Option (Result Text Frame)
      → Result SyncError Session × BucketAssigner
  unfolding authorize initial_lsns assign
  handshake clock t a validate none =
      (err (protocol_error (codes "connection closed before Subscribe")), a)
  handshake clock t a validate (some (err e)) =
      (err (protocol_error (codes "WebSocket error: " ++ e)), a)
  handshake clock t a validate (some (ok (binary bytes))) =
      first_message a (assign world clock t a) validate (env.decode_client bytes)
  handshake clock t a validate (some (ok _)) =
      (err (protocol_error (codes "expected a binary Subscribe frame")), a)
