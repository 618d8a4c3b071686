-- ===== src/Gateway/Deltas/Total.antt =====
-- crates/pes-gateway/src/connection.rs: a poll that nothing goes wrong in.
use prometheus_entity_sync.Base.{
  text_eq, get, keys, All, Result, ok, err, none, List, [], ◌∷◌, ◌≡◌, refl, sym,
}
use mathlib.Core.Path.{subst}
use prometheus_entity_sync.Core.{BucketId, BucketOp, SyncError}
use prometheus_entity_sync.Oplog.Redb.{Backend}
use prometheus_entity_sync.Oplog.Store.{BucketOpLog, Faults, Call}
use prometheus_entity_sync.Oplog.Store.View.{Fits, IsSound}
use prometheus_entity_sync.Oplog.Store.Drain.{drain_since_total}
use prometheus_entity_sync.Protocol.{ServerMessage}
use prometheus_entity_sync.Gateway.Effects.{Env, Event, Conn, pure, continue_conn}
use prometheus_entity_sync.Gateway.Connection.{Session}
use prometheus_entity_sync.Gateway.Deltas.{
  scan_from, deliver_ops, poll_bucket, poll_buckets, poll_deltas,
}
use prometheus_entity_sync.Gateway.Deltas.Seen.{scan_from-le}

abbrev pub Succeeds : Result SyncError Session × List Event → Type 0
Succeeds x = (s : Session) × (x.0 ≡ ok s)

sent-Succeeds :
    (r : Result SyncError (Unit {0})) (events : List Event) (s : Session)
    → r ≡ ok tt
    → Succeeds (continue_conn (r, events) (λ _. pure s))
sent-Succeeds r events s h = rw h (s, refl)

continued-Succeeds :
    (x : Result SyncError Session × List Event) (f : Session → Conn Session)
    → Succeeds x
    → ((s : Session) (mid : List Event) → Succeeds (f s mid))
    → Succeeds (continue_conn x f)
continued-Succeeds (ok s, mid) f h k = k s mid
continued-Succeeds (err e, mid) f h k = cc (h.1)

module _ (K : Backend) (env : Env) (log_at : BucketId → BucketOpLog K) (io : Faults)
    (none_fails : (c : Call) → io c ≡ none)
    (takes_all : (events : List Event) (m : ServerMessage) → env.send events m ≡ ok tt)
    (sound : (b : BucketId) → IsSound K (log_at b)) where
  deliver-Succeeds :
      (s : Session) (b : BucketId) (os : List BucketOp) (events : List Event)
      → Succeeds (deliver_ops env K log_at io s b (ok os) events)
  deliver-Succeeds s b [] events = (s, refl)
  deliver-Succeeds s b (o ∷ os) events = sent-Succeeds (env.send events _) _ _ (takes_all events _)

  poll_buckets-Succeeds :
      (bs : List BucketId) (s : Session) (events : List Event)
      → All Fits bs
      → Succeeds (poll_buckets env K log_at io bs s events)
  unfolding poll_buckets poll_bucket
  poll_buckets-Succeeds [] s events hb = (s, refl)
  poll_buckets-Succeeds (b ∷ bs) s events hb =
      let (os, read) =
        drain_since_total K io (log_at b) b (scan_from s b) none_fails (sound b) hb.0
          (scan_from-le (get s.last_seen_lsn b)) in
      continued-Succeeds (poll_bucket env K log_at io s b events) (poll_buckets env K log_at io bs)
        (subst (λ r. Succeeds (deliver_ops env K log_at io s b r events)) (sym read)
          (deliver-Succeeds s b os events))
        (λ s1 mid. poll_buckets-Succeeds bs s1 mid hb.1)

  -- On sound logs, with the ids of the session's buckets in range, a poll succeeds if no call of the
  -- database fails and the socket takes every message.
  pub poll_deltas-Succeeds :
      (s : Session) (events : List Event)
      → All Fits (keys s.authorized_buckets)
      → Succeeds (poll_deltas env K log_at io s events)
  unfolding poll_deltas
  poll_deltas-Succeeds s events hb = poll_buckets-Succeeds (keys s.authorized_buckets) s events hb
