-- ===== src/Gateway/Run/Loop.antt =====
-- crates/pes-gateway/src/connection.rs: the loop of a connection does only what it may.
use prometheus_entity_sync.Base.{
  EmitsAt, EmitsAt-none, EmitsAt-one, EmitsAt-append, Text, text_eq, All, All-Has, Has, Has-entry,
  Result, ok, err, Option, none, some, List, [], ◌∷◌, ◌++◌, ℕ, ◌≡◌, refl, sym, inl, inr,
}
use mathlib.Core.Path.{subst}
use prometheus_entity_sync.Core.{BucketAssignment, BucketId, Op, SyncError, protocol_error}
use prometheus_entity_sync.Oplog.Redb.{Backend}
use prometheus_entity_sync.Oplog.Store.{BucketOpLog, Faults, drain_since}
use prometheus_entity_sync.Protocol.{keepalive, ClientMessage, subscribe, ack, write, ping}
use prometheus_entity_sync.Gateway.Effects.{
  Env, Event, sent, fetched, executed, Conn, pure, continue_conn, send_message, report,
}
use prometheus_entity_sync.Gateway.Connection.{Session, binary, close, other}
use prometheus_entity_sync.Gateway.Writes.{handle_write}
use prometheus_entity_sync.Gateway.Writes.Guard.{IsGuarded, MayWrite, handle_write-IsGuarded}
use prometheus_entity_sync.Gateway.Deltas.{poll_deltas}
use prometheus_entity_sync.Gateway.Deltas.Wire.{poll_deltas-Emits}
use prometheus_entity_sync.Gateway.Deltas.Once.{poll_buckets-authorized}
use prometheus_entity_sync.Gateway.Serve.{
  Input, incoming, delta_tick, keepalive_tick, cancelled, handle_decoded, handle_client_message,
  serve_step, serve_rest, serve, poll_or_report,
}
use prometheus_entity_sync.Gateway.Run.History.{EmitsAt-continue, Emits-EmitsAt}
use prometheus_entity_sync.Gateway.Run.Frames.{
  IsAsked, IsAllowed, IsAllowedFrame, AllEntitled, guarded-IsAllowed,
}

module _ (env : Env) (K : Backend) (read_checksum : BucketId → Result SyncError ℕ)
    (inputs : List (ℕ × Input K)) (Entitled : BucketAssignment → Type 0) where
  abbrev May : List Event → Event → Type 0
  May = IsAllowed env K read_checksum inputs Entitled

  abbrev Holds : Session → Type 0
  Holds = AllEntitled env K read_checksum inputs Entitled

  -- A poll only sends.
  abbrev IsPolled : Event → Type 0
  IsPolled (sent m) = IsAllowedFrame env K read_checksum inputs Entitled m
  IsPolled (fetched sql binds) = ⊥
  IsPolled (executed sql binds) = ⊥

  polled_later : (before : List Event) (ev : Event) → IsPolled ev → May before ev
  polled_later before (sent m) h = h
  polled_later before (fetched sql binds) h = absurd h
  polled_later before (executed sql binds) h = absurd h

  -- The session to go on with, if there is one, holds only such buckets.
  abbrev HoldsAfter : Result SyncError Session → Type 0
  HoldsAfter (ok s) = Holds s
  HoldsAfter (err e) = Unit

  abbrev HoldsOn : Result SyncError (Option Session) → Type 0
  HoldsOn (ok (some s)) = Holds s
  HoldsOn (ok none) = Unit
  HoldsOn (err e) = Unit

  HoldsAfter-same :
      (x : Result SyncError (Unit {0}) × List Event) (s : Session)
      → Holds s
      → HoldsAfter (continue_conn x (λ _. pure s)).0
  HoldsAfter-same (ok u, events) s h = h
  HoldsAfter-same (err e, events) s h = tt

  HoldsOn-after :
      (x : Result SyncError Session × List Event)
      → HoldsAfter x.0
      → HoldsOn (continue_conn x (λ s. pure (some s))).0
  HoldsOn-after (ok s, events) h = h
  HoldsOn-after (err e, events) h = h

  HoldsOn-sent :
      (x : Result SyncError (Unit {0}) × List Event) (s : Session)
      → Holds s
      → HoldsOn (continue_conn x (λ _. pure (some s))).0
  HoldsOn-sent (ok u, events) s h = h
  HoldsOn-sent (err e, events) s h = tt

  -- After a call that gives no value, the session goes on as it is.
  then_same :
      (x : Result SyncError (Unit {0}) × List Event) (s : Session) (events : List Event)
      → Holds s
      → EmitsAt May events x.1
      → HoldsAfter (continue_conn x (λ _. pure s)).0
        × EmitsAt May events (continue_conn x (λ _. pure s)).1
  then_same x s events h k = (
    HoldsAfter-same x s h,
    EmitsAt-continue May events x (λ _. pure s) k (λ u e. EmitsAt-none May x.1),
  )

  decoded-May :
      (now_ms : ℕ) (s : Session) (m : Result Text ClientMessage) (events : List Event)
      → ((ty id : Text) (op : Op)
          → m ≡ ok (write ty id op)
          → IsAsked env K read_checksum inputs Entitled ty id op)
      → Holds s
      → HoldsAfter (handle_decoded env now_ms s m events).0
        × EmitsAt May events (handle_decoded env now_ms s m events).1
  decoded-May now_ms s (err e) events asked h =
      then_same (report env (protocol_error e) events) s events h (EmitsAt-one May events _ tt)
  decoded-May now_ms s (ok (ack lsn)) events asked h = (h, EmitsAt-none May events)
  decoded-May now_ms s (ok (write ty id op)) events asked h =
      then_same (handle_write env s ty id op events) s events h (
        Emits-EmitsAt May (IsGuarded env (MayWrite s) events ty id op) events _
          (λ rest ev.
            guarded-IsAllowed env K read_checksum inputs Entitled s events ty id op rest ev
              (asked ty id op refl) h)
          (handle_write-IsGuarded env s ty id op events))
  decoded-May now_ms s (ok ping) events asked h =
      then_same (send_message env (keepalive now_ms) events) s events h
        (EmitsAt-one May events _ tt)
  decoded-May now_ms s (ok (subscribe buckets token resume_lsn version)) events asked h =
      then_same (report env _ events) s events h (EmitsAt-one May events _ tt)

  polled-May :
      (s : Session) (x : Result SyncError Session × List Event) (events : List Event)
      → HoldsAfter x.0
      → EmitsAt May events x.1
      → HoldsOn (poll_or_report env K x).0 × EmitsAt May events (poll_or_report env K x).1
  polled-May s (ok s', mid) events h k = (h, k)
  polled-May s (err e, mid) events h k =
      (tt, EmitsAt-append May events mid _ k (EmitsAt-one May mid _ tt))

  poll-Holds :
      (log_at : BucketId → BucketOpLog K) (io : Faults) (s : Session) (events : List Event)
      (r : Result SyncError Session)
      → Holds s
      → (poll_deltas env K log_at io s events).0 ≡ r
      → HoldsAfter r
  unfolding poll_deltas
  poll-Holds log_at io s events (err e) h same = tt
  poll-Holds log_at io s events (ok s') h same =
      subst (All _) (sym (poll_buckets-authorized K env log_at io _ s events s' same)) h

  step-May :
      (now_ms : ℕ) (s : Session) (i : Input K) (events : List Event)
      → Has (now_ms, i) inputs
      → Holds s
      → HoldsOn (serve_step env K now_ms s i events).0
        × EmitsAt May events (serve_step env K now_ms s i events).1
  unfolding serve_step handle_client_message
  step-May now_ms s (incoming none) events has h = (tt, EmitsAt-none May events)
  step-May now_ms s (incoming (some (err e))) events has h = (tt, EmitsAt-none May events)
  step-May now_ms s (incoming (some (ok (binary bytes)))) events has h =
      let (holds, emits) =
        decoded-May now_ms s (env.decode_client bytes) events
          (λ ty id op e. (now_ms, bytes, has, e)) h in
      (
        HoldsOn-after _ holds,
        EmitsAt-continue May events _ (λ s'. pure (some s')) emits (λ u e. EmitsAt-none May _),
      )
  step-May now_ms s (incoming (some (ok close))) events has h = (tt, EmitsAt-none May events)
  step-May now_ms s (incoming (some (ok other))) events has h = (h, EmitsAt-none May events)
  step-May now_ms s (delta_tick log_at io) events has h =
      polled-May s (poll_deltas env K log_at io s events) events
        (poll-Holds log_at io s events _ h refl)
        (Emits-EmitsAt May IsPolled events _ (λ rest ev k. polled_later (events ++ rest) ev k)
          (poll_deltas-Emits K env log_at io s.authorized_buckets IsPolled
            (λ b a from o os found d.
              let entry = All-Has _ (b, a) s.authorized_buckets h (Has-entry _ b a found) in
              let at : drain_since K io (log_at a.bucket_id) a.bucket_id from ≡ ok (o ∷ os) =
                subst (λ c. drain_since K io (log_at c) c from ≡ ok (o ∷ os)) entry.0 d in
              (a, entry.1, refl, o ∷ os, (now_ms, log_at, io, from, has, at), refl))
            s events refl))
  step-May now_ms s keepalive_tick events has h = (
    HoldsOn-sent _ s h,
    EmitsAt-continue May events (send_message env (keepalive now_ms) events) (λ _. pure (some s))
        (EmitsAt-one May events _ tt) (λ u e. EmitsAt-none May _),
  )
  step-May now_ms s cancelled events has h = (tt, EmitsAt-one May events _ tt)

  rest-May :
      (loop : Session → Conn (Unit {0})) (x : Result SyncError (Option Session) × List Event)
      (events : List Event)
      → HoldsOn x.0
      → EmitsAt May events x.1
      → ((s : Session) (mid : List Event) → Holds s → EmitsAt May mid (loop s mid).1)
      → EmitsAt May events (continue_conn x (serve_rest env K loop)).1
  rest-May loop (err e, mid) events h k f = k
  rest-May loop (ok none, mid) events h k f = k
  rest-May loop (ok (some s), mid) events h k f = EmitsAt-append May events mid _ k (f s mid h)

  pub serve-May :
      (rest : List (ℕ × Input K)) (s : Session) (events : List Event)
      → ((n : ℕ) (i : Input K) → Has (n, i) rest → Has (n, i) inputs)
      → Holds s
      → EmitsAt May events (serve env K rest s events).1
  unfolding serve
  serve-May [] s events f h = EmitsAt-none May events
  serve-May ((n, i) ∷ rest) s events f h =
      let (holds, emits) = step-May n s i events (f n i (inl refl)) h in
      rest-May (serve env K rest) (serve_step env K n s i events) events holds emits
        (λ s' mid k. serve-May rest s' mid (λ m j has. f m j (inr has)) k)
