-- ===== src/Gateway/Feed.antt =====
-- crates/pes-gateway/src/connection.rs with crates/pes-oplog/src/store.rs: one bucket of one session, while
-- the router appends to the log and the client polls and acknowledges.
pub mod Ascending
pub mod Pending
pub mod Frames
pub mod Invariant
pub mod Polls
pub mod Acks
pub mod Exact
pub mod Skip
mod Tests
use prometheus_entity_sync.Base.{
  ◌-◌, text_eq, Map, get, All, Result, ok, err, some, List, [], ◌∷◌, ◌++◌, ℕ, ◌≤◌, ◌<◌,
  if◌then◌else◌, ◌==◌, ◌≡◌, false,
}
use prometheus_entity_sync.Core.{BucketId, BucketOp, PgLsn, SyncError, u64_max}
use prometheus_entity_sync.Oplog.Redb.{Backend, StoredOp}
use prometheus_entity_sync.Oplog.Store.{BucketOpLog, Faults, append, drain_since, compact}
use prometheus_entity_sync.Oplog.Store.View.{Fits, stored_at}
use prometheus_entity_sync.Protocol.{
  ServerMessage, snapshot_begin, snapshot_batch, snapshot_complete, delta, checkpoint, keepalive,
  error,
}
use prometheus_entity_sync.Gateway.Effects.{Env, Event, sent, fetched, executed}
use prometheus_entity_sync.Gateway.Connection.{Session}
use prometheus_entity_sync.Gateway.Deltas.{scan_from, poll_deltas}
use prometheus_entity_sync.Gateway.Serve.{raise_lsns}

-- The log, the session of the client, and what its connection has done.
pub record Feed (K : Backend) : Type 0 where
  pub log : BucketOpLog K
  pub session : Session
  pub events : List Event

-- The ops of a delta frame for the bucket that the client calls `wire`.
unfoldable pub ops_of : BucketId → Event → List BucketOp
ops_of wire (sent (delta b ops top)) = if b == wire then ops else []
ops_of wire _ = []

-- What the client has received of the bucket, in the order of the frames.
unfoldable pub ops_under : BucketId → List Event → List BucketOp
unfolding ops_of
ops_under wire [] = []
ops_under wire (ev ∷ events) = ops_of wire ev ++ ops_under wire events

module _ (K : Backend) (env : Env) (b : BucketId) where
  -- Above the start of the first scan, and above every op of the bucket so far.
  abbrev pub IsNew : PgLsn → List BucketOp → PgLsn → Type 0
  IsNew first accepted lsn = (first ≤ lsn) × All (λ o. o.lsn < lsn) accepted × (lsn < u64_max)

  -- What can have happened since `start`, with the ops that stood in the bucket for the client then or
  -- that were accepted since.
  pub data Feeds (start : Feed K) : List BucketOp → Feed K → Type 0 where
    -- At the start, the ops that a scan finds are those that wait.
    begins :
        (io : Faults) (waiting : List BucketOp)
        → (drain_since K io start.log b (scan_from start.session b) ≡ ok waiting)
        → Feeds start waiting start
    -- The router appends a newer op to the bucket.
    accepts :
        {accepted : List BucketOp} {f : Feed K} (io : Faults) (now : ℕ) (op : BucketOp) (l : PgLsn)
        → Feeds start accepted f
        → IsNew (scan_from start.session b) accepted op.lsn
        → ((append K io now f.log b op.lsn op).0 ≡ ok l)
        → Feeds start
            (accepted ++ op ∷ [])
            (record f { log = (append K io now f.log b op.lsn op).1 })
    -- An append fails.
    refuses :
        {accepted : List BucketOp} {f : Feed K} (io : Faults) (now : ℕ) (c : BucketId)
        (op : BucketOp) (e : SyncError)
        → Feeds start accepted f
        → Fits c
        → op.lsn ≤ u64_max
        → ((append K io now f.log c op.lsn op).0 ≡ err e)
        → Feeds start accepted (record f { log = (append K io now f.log c op.lsn op).1 })
    -- The router appends to another bucket.
    elsewhere :
        {accepted : List BucketOp} {f : Feed K} (io : Faults) (now : ℕ) (c : BucketId)
        (op : BucketOp)
        → Feeds start accepted f
        → ((c == b) ≡ false)
        → Fits c
        → op.lsn ≤ u64_max
        → Feeds start accepted (record f { log = (append K io now f.log c op.lsn op).1 })
    -- A compaction, if no op is old that still waits for the client.
    compacts :
        {accepted : List BucketOp} {f : Feed K} (io : Faults) (now : ℕ)
        → Feeds start accepted f
        → ((l : PgLsn) (st : StoredOp)
            → scan_from f.session b ≤ l
            → l < u64_max
            → stored_at K f.log b l ≡ some st
            → now - f.log.compaction_ttl ≤ st.appended_at_unix_secs)
        → Feeds start accepted (record f { log = (compact K io now f.log).1 })
    -- A poll succeeds. The other buckets may be read at other moments than this one.
    polls :
        {accepted : List BucketOp} {f : Feed K} (io : Faults) (log_at : BucketId → BucketOpLog K)
        (s : Session)
        → Feeds start accepted f
        → (log_at b ≡ f.log)
        → ((poll_deltas env K log_at io f.session f.events).0 ≡ ok s)
        → Feeds start accepted
            (record f { session = s; events = (poll_deltas env K log_at io f.session f.events).1 })
    -- The client acknowledges no more than it has been sent of this bucket.
    acks :
        {accepted : List BucketOp} {f : Feed K} (lsn tracked : PgLsn)
        → Feeds start accepted f
        → (get f.session.last_seen_lsn b ≡ some tracked)
        → lsn ≤ tracked
        → Feeds start accepted (record f {
          session = record f.session { last_seen_lsn = raise_lsns lsn f.session.last_seen_lsn };
        })
    -- Anything else that the connection does: keepalives, errors, writes.
    other_event :
        {accepted : List BucketOp} {f : Feed K} (ev : Event)
        → Feeds start accepted f
        → ((wire : BucketId) → ops_of wire ev ≡ [])
        → Feeds start accepted (record f { events = f.events ++ ev ∷ [] })
