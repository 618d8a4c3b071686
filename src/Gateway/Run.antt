-- ===== src/Gateway/Run.antt =====
-- crates/pes-gateway/src/connection.rs: `ConnectionHandler::run`, a whole connection.
pub mod History
pub mod Frames
pub mod Loop
pub mod Authorized
mod Tests
use prometheus_entity_sync.Base.{Text, Result, ok, err, Option, List, ℕ}
use prometheus_entity_sync.Core.{BucketId, SyncError, TokenClaims}
use prometheus_entity_sync.Oplog.Redb.{Backend}
use prometheus_entity_sync.Rules.Resolver.{World}
use prometheus_entity_sync.Rules.Assigner.{BucketAssigner, Clock}
use prometheus_entity_sync.Gateway.Effects.{Env, Event, Conn, ◌>>=◌, ◌>>◌, report}
use prometheus_entity_sync.Gateway.Connection.{Session, Frame, handshake}
use prometheus_entity_sync.Gateway.Snapshots.{deliver_snapshots}
use prometheus_entity_sync.Gateway.Serve.{Input, serve}

-- `read_checksum` is the log as the snapshots find it; `inputs` is what the loop meets.
module _ (env : Env) (K : Backend) (read_checksum : BucketId → Result SyncError ℕ)
    (inputs : List (ℕ × Input K)) where
  unfoldable pub run_session : Result SyncError Session → Conn (Unit {0})
  unfolding deliver_snapshots serve
  run_session (err e) = λ events. (err e, (report env e events).1)
  run_session (ok s) = do deliver_snapshots env read_checksum s; serve env K inputs s

  -- The result, the events, and the assigner, which other connections share.
  unfoldable pub run :
      World
      → Clock
      → ℕ
      → BucketAssigner
      → (Text → Result SyncError TokenClaims)
      → Option (Result Text Frame)
      → List Event
      → (Result SyncError (Unit {0}) × List Event) × BucketAssigner
  unfolding run_session handshake
  run world clock t a validate first events =
      let shaken = handshake env world clock t a validate first in
      (run_session shaken.0 events, shaken.1)
