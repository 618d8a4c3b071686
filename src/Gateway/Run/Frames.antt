-- ===== src/Gateway/Run/Frames.antt =====
-- crates/pes-gateway/src/connection.rs: what a connection may do for a set of buckets, and that its
-- snapshots and its writes do nothing else.
use prometheus_entity_sync.Base.{
  EmitsAt, EmitsAt-none, EmitsAt-one, Text, text_eq, Map, get, contains_key, All, All-Has, Has,
  Result, ok, err, some, List, [], ◌∷◌, ◌++◌, ℕ, ◌+◌, Bool-cases, ◌≡◌, refl, inl, inr,
}
use prometheus_entity_sync.Core.{BucketAssignment, BucketId, BucketOp, Op, PgLsn, SyncError}
use prometheus_entity_sync.Core.Values.{Json}
use prometheus_entity_sync.Oplog.Redb.{Backend}
use prometheus_entity_sync.Oplog.Store.{BucketOpLog, Faults, drain_since}
use prometheus_entity_sync.Protocol.{
  ServerMessage, snapshot_begin, snapshot_batch, snapshot_complete, delta, checkpoint, keepalive,
  error, write, protocol_version,
}
use prometheus_entity_sync.Gateway.Effects.{Env, Event, sent, fetched, executed, send_message}
use prometheus_entity_sync.Gateway.Connection.{Session, binary}
use prometheus_entity_sync.Gateway.Snapshots.{
  fresh_assignments, send_batches, deliver_one, deliver_all, deliver_snapshots,
}
use prometheus_entity_sync.Gateway.Writes.Guard.{IsGuarded, MayWrite}
use prometheus_entity_sync.Gateway.Deltas.{for_wire}
use prometheus_entity_sync.Gateway.Serve.{Input, incoming, delta_tick}
use prometheus_entity_sync.Gateway.Run.History.{EmitsAt-continue}

module _ (env : Env) (K : Backend) (read_checksum : BucketId → Result SyncError ℕ)
    (inputs : List (ℕ × Input K)) (Entitled : BucketAssignment → Type 0) where
  -- The ops that a poll of the connection found in the bucket of the assignment.
  abbrev pub IsScanned : BucketAssignment → List BucketOp → Type 0
  IsScanned a os =
      (now_ms : ℕ) × (log_at : BucketId → BucketOpLog K) × (io : Faults) × (from : PgLsn) × Has
        (now_ms, delta_tick log_at io) inputs
      × (drain_since K io (log_at a.bucket_id) a.bucket_id from ≡ ok os)

  -- A frame has data of one bucket that the client is entitled to, under the id of its rule.
  abbrev pub IsAllowedFrame : ServerMessage → Type 0
  IsAllowedFrame (snapshot_begin wire total_rows version) =
      (a : BucketAssignment) × Entitled a × (wire ≡ a.rule_id)
  IsAllowedFrame (snapshot_batch wire rows offset) =
      (a : BucketAssignment) × Entitled a
      × (wire ≡ a.rule_id)
      × Has (ok rows) (env.snapshot_batches a)
  IsAllowedFrame (snapshot_complete wire sum) =
      (a : BucketAssignment) × Entitled a
      × (wire ≡ a.rule_id)
      × (read_checksum a.bucket_id ≡ ok sum)
  IsAllowedFrame (delta wire ops top) =
      (a : BucketAssignment) × Entitled a
      × (wire ≡ a.rule_id)
      × (os : List BucketOp) × IsScanned a os
      × (ops ≡ for_wire a.rule_id os)
  IsAllowedFrame (checkpoint bucket_id lsn) = ⊥
  IsAllowedFrame (keepalive now_ms) = Unit
  IsAllowedFrame (error code message) = Unit

  -- The client is entitled to a bucket with this query for the entity type.
  abbrev pub IsWritable : Text → Text → Type 0
  IsWritable entity_type query =
      (a : BucketAssignment) × Entitled a × (get a.data_queries entity_type ≡ some query)

  -- The client sent a write of the op.
  abbrev pub IsAsked : Text → Text → Op → Type 0
  IsAsked entity_type entity_id op =
      (now_ms : ℕ) × (bytes : Text) × Has (now_ms, incoming (some (ok (binary bytes)))) inputs
      × (env.decode_client bytes ≡ ok (write entity_type entity_id op))

  -- What such a write may do whose guard was asked after a part of the events before.
  abbrev pub IsOfWrite : List Event → Event → Type 0
  IsOfWrite before ev =
      (entity_type : Text) × (entity_id : Text) × (op : Op) × IsAsked entity_type entity_id op
      × (start : List Event) × (rest : List Event) × (before ≡ start ++ rest)
      × IsGuarded env IsWritable start entity_type entity_id op ev

  abbrev pub IsAllowed : List Event → Event → Type 0
  IsAllowed before (sent m) = IsAllowedFrame m
  IsAllowed before (fetched sql binds) = IsOfWrite before (fetched sql binds)
  IsAllowed before (executed sql binds) = IsOfWrite before (executed sql binds)

  -- Every bucket of the session is one that the client is entitled to, under its own id.
  abbrev pub AllEntitled : Session → Type 0
  AllEntitled s = All (λ e. (e.0 ≡ e.1.bucket_id) × Entitled e.1) s.authorized_buckets

  batches-Emits :
      (a : BucketAssignment) (offset : ℕ) (batches : List (Result SyncError (List Json)))
      (events : List Event)
      → Entitled a
      → ((rows : List Json) → Has (ok rows) batches → Has (ok rows) (env.snapshot_batches a))
      → EmitsAt IsAllowed events (send_batches env a.rule_id offset batches events).1
  unfolding send_batches
  batches-Emits a offset [] events may f = EmitsAt-none IsAllowed events
  batches-Emits a offset (err e ∷ batches) events may f = EmitsAt-none IsAllowed events
  batches-Emits a offset (ok rows ∷ batches) events may f =
      EmitsAt-continue IsAllowed events
        (send_message env (snapshot_batch a.rule_id rows offset) events)
        (λ _. send_batches env a.rule_id (offset + 1) batches)
        (EmitsAt-one IsAllowed events _ (a, may, refl, f rows (inl refl)))
        (λ u e. batches-Emits a (offset + 1) batches _ may (λ r h. f r (inr h)))

  deliver_one-Emits :
      (a : BucketAssignment) (events : List Event)
      → Entitled a
      → EmitsAt IsAllowed events (deliver_one env read_checksum a events).1
  unfolding deliver_one
  deliver_one-Emits a events may =
      EmitsAt-continue IsAllowed events (read_checksum a.bucket_id, events) _
        (EmitsAt-none IsAllowed events)
        (λ sum same.
          EmitsAt-continue IsAllowed events
            (send_message env (snapshot_begin a.rule_id 0 protocol_version) events) _
            (EmitsAt-one IsAllowed events _ (a, may, refl))
            (λ u e.
              EmitsAt-continue IsAllowed _ (send_batches env a.rule_id 0 (env.snapshot_batches a) _)
                _ (batches-Emits a 0 (env.snapshot_batches a) _ may (λ r h. h))
                (λ v f.
                  let last : IsAllowedFrame (snapshot_complete a.rule_id sum) =
                    (a, may, refl, same) in
                  EmitsAt-one IsAllowed _ (sent (snapshot_complete a.rule_id sum)) last)))

  deliver_all-Emits :
      (as' : List BucketAssignment) (events : List Event)
      → All Entitled as'
      → EmitsAt IsAllowed events (deliver_all env read_checksum as' events).1
  unfolding deliver_all
  deliver_all-Emits [] events h = EmitsAt-none IsAllowed events
  deliver_all-Emits (a ∷ as') events h =
      EmitsAt-continue IsAllowed events (deliver_one env read_checksum a events)
        (λ _. deliver_all env read_checksum as') (deliver_one-Emits a events h.0)
        (λ u e. deliver_all-Emits as' _ h.1)

  fresh-Entitled :
      (seen : Map BucketId PgLsn) (m : Map BucketId BucketAssignment)
      → All (λ e. (e.0 ≡ e.1.bucket_id) × Entitled e.1) m
      → All Entitled (fresh_assignments seen m)
  unfolding fresh_assignments
  fresh-Entitled seen [] h = tt
  fresh-Entitled seen ((b, a) ∷ m) h = elim (Bool-cases (contains_key seen b)) [
    | inl resumed ↦ rw resumed (fresh-Entitled seen m h.1)
    | inr fresh ↦ rw fresh (h.0.1, fresh-Entitled seen m h.1)
  ]

  pub deliver_snapshots-Emits :
      (s : Session) (events : List Event)
      → AllEntitled s
      → EmitsAt IsAllowed events (deliver_snapshots env read_checksum s events).1
  unfolding deliver_snapshots
  deliver_snapshots-Emits s events may =
      deliver_all-Emits (fresh_assignments s.last_seen_lsn s.authorized_buckets) events
        (fresh-Entitled s.last_seen_lsn s.authorized_buckets may)

  MayWrite-IsWritable :
      (s : Session) (ty query : Text) → AllEntitled s → MayWrite s ty query → IsWritable ty query
  MayWrite-IsWritable s ty query may (a, b, has, found) =
      (a, (All-Has _ (b, a) s.authorized_buckets may has).1, found)

  -- A write of the client, and what it is after any events that follow.
  pub guarded-IsAllowed :
      (s : Session) (start : List Event) (ty id : Text) (op : Op) (rest : List Event) (ev : Event)
      → IsAsked ty id op
      → AllEntitled s
      → IsGuarded env (MayWrite s) start ty id op ev
      → IsAllowed (start ++ rest) ev
  guarded-IsAllowed s start ty id op rest (sent (error code message)) asked_for may h = tt
  guarded-IsAllowed s start ty id op rest (sent (snapshot_begin b total version)) asked_for may h =
      absurd h
  guarded-IsAllowed s start ty id op rest (sent (snapshot_batch b rows offset)) asked_for may h =
      absurd h
  guarded-IsAllowed s start ty id op rest (sent (snapshot_complete b sum)) asked_for may h =
      absurd h
  guarded-IsAllowed s start ty id op rest (sent (delta b os top)) asked_for may h = absurd h
  guarded-IsAllowed s start ty id op rest (sent (checkpoint b lsn)) asked_for may h = absurd h
  guarded-IsAllowed s start ty id op rest (sent (keepalive now_ms)) asked_for may h = absurd h
  guarded-IsAllowed s start ty id op rest (fetched sql binds) asked_for may
        (same, query, can, asked) =
      (
        ty,
        id,
        op,
        asked_for,
        start,
        rest,
        refl,
        (same, query, MayWrite-IsWritable s ty query may can, asked),
      )
  guarded-IsAllowed s start ty id op rest (executed sql binds) asked_for may
        (query, can, scope, run) =
      (
        ty,
        id,
        op,
        asked_for,
        start,
        rest,
        refl,
        (query, MayWrite-IsWritable s ty query may can, scope, run),
      )
