-- ===== src/Gateway/Deltas/Once.antt =====
-- crates/pes-gateway/src/connection.rs: `poll_deltas` delivers an op once, under the client's name
-- of the bucket.
use prometheus_entity_sync.Base.{
  text_eq, get, keys, All, Has, Result, ok, err, List, [], ◌∷◌, ok-injective, ◌≡◌, refl, sym, ap,
  ◌∙◌, ◌⊎◌, inl, inr,
}
use mathlib.Core.Path.{subst}
use prometheus_entity_sync.Core.{BucketId, BucketOp, SyncError}
use prometheus_entity_sync.Oplog.Redb.{Backend}
use prometheus_entity_sync.Oplog.Store.{BucketOpLog, Faults, drain_since}
use prometheus_entity_sync.Oplog.Store.View.{Fits, IsSound}
use prometheus_entity_sync.Gateway.Effects.{Env, Event, Conn, continue_conn}
use prometheus_entity_sync.Gateway.Connection.{Session}
use prometheus_entity_sync.Gateway.Deltas.{
  scan_from, deliver_ops, poll_bucket, poll_buckets, poll_deltas,
}
use prometheus_entity_sync.Gateway.Deltas.Settled.{IsSettled, IsScan-of, poll_buckets-IsSettled}
use prometheus_entity_sync.Gateway.Deltas.Seen.{scan_from-le, then_continued, sent_then}

module _ (K : Backend) (env : Env) (log_at : BucketId → BucketOpLog K) where
  -- The poll failed before it sent anything, or it found nothing at all to do.
  abbrev pub IsSilent : Session → List Event → Result SyncError Session × List Event → Type 0
  IsSilent s events x = ((e : SyncError) × (x ≡ (err e, events))) ⊎ (x ≡ (ok s, events))

  module _ (io : Faults) (sound : (b : BucketId) → IsSound K (log_at b)) where
    deliver-IsSilent :
        (s : Session) (b : BucketId) (r : Result SyncError (List BucketOp)) (events : List Event)
        → Fits b
        → drain_since K io (log_at b) b (scan_from s b) ≡ r
        → IsSettled K log_at s b
        → IsSilent s events (deliver_ops env K log_at io s b r events)
    deliver-IsSilent s b (err e) events hb d k = inl (e, refl)
    deliver-IsSilent s b (ok []) events hb d k = inr refl
    deliver-IsSilent s b (ok (o ∷ os)) events hb d k =
        let scan =
          IsScan-of K env log_at io sound b (scan_from s b) (ok (o ∷ os)) (o ∷ os) hb
            (scan_from-le (get s.last_seen_lsn b)) d refl in
        let (from, below, st, found, same) = scan.0.0 in absurd (k o.lsn st from below found)

    IsSilent-continue :
        (s : Session) (events : List Event) (x : Result SyncError Session × List Event)
        (f : Session → Conn Session)
        → IsSilent s events x
        → IsSilent s events (f s events)
        → IsSilent s events (continue_conn x f)
    IsSilent-continue s events x f (inl (e, same)) k = inl (e, ap (λ y. continue_conn y f) same)
    IsSilent-continue s events x f (inr same) k =
        subst (λ y. IsSilent s events (continue_conn y f)) (sym same) k

    poll_buckets-IsSilent :
        (bs : List BucketId) (s : Session) (events : List Event)
        → All Fits bs
        → ((c : BucketId) → Has c bs → IsSettled K log_at s c)
        → IsSilent s events (poll_buckets env K log_at io bs s events)
    unfolding poll_buckets poll_bucket
    poll_buckets-IsSilent [] s events hb k = inr refl
    poll_buckets-IsSilent (b ∷ bs) s events hb k =
        IsSilent-continue s events (poll_bucket env K log_at io s b events)
          (poll_buckets env K log_at io bs)
          (deliver-IsSilent s b (drain_since K io (log_at b) b (scan_from s b)) events hb.0 refl
            (k b (inl refl)))
          (poll_buckets-IsSilent bs s events hb.1 (λ c h. k c (inr h)))

  module _ (io : Faults) where
    pub deliver-authorized :
        (s : Session) (b : BucketId) (r : Result SyncError (List BucketOp)) (events : List Event)
        (s' : Session)
        → (deliver_ops env K log_at io s b r events).0 ≡ ok s'
        → s'.authorized_buckets ≡ s.authorized_buckets
    deliver-authorized s b (err e) events s' h = cc
    deliver-authorized s b (ok []) events s' h =
        ap (λ x. Session.authorized_buckets x) (sym (ok-injective h))
    deliver-authorized s b (ok (o ∷ os)) events s' h =
        ap (λ x. Session.authorized_buckets x) (sym (sent_then (env.send events _) _ _ s' h))

    pub poll_buckets-authorized :
        (bs : List BucketId) (s : Session) (events : List Event) (s' : Session)
        → (poll_buckets env K log_at io bs s events).0 ≡ ok s'
        → s'.authorized_buckets ≡ s.authorized_buckets
    unfolding poll_buckets poll_bucket
    poll_buckets-authorized [] s events s' h =
        ap (λ x. Session.authorized_buckets x) (sym (ok-injective h))
    poll_buckets-authorized (b ∷ bs) s events s' h =
        let (s1, mid, polled, rest) =
          then_continued (poll_bucket env K log_at io s b events) (poll_buckets env K log_at io bs)
            s' h in
        poll_buckets-authorized bs s1 mid s' rest
        ∙ deliver-authorized s b _ events s1 (ap (λ x. x.0) polled)

  -- On a sound log, with the ids of the session's buckets in range, after a poll that succeeds no op
  -- is stored in the range that the next scan of any bucket of the session reads; and a second poll
  -- of the same log sends nothing and leaves the session as it is, or fails before it sends
  -- anything, whatever faults the two polls meet.
  pub poll_deltas-once :
      (io io' : Faults) (s s' : Session) (events events' : List Event)
      → ((b : BucketId) → IsSound K (log_at b))
      → All Fits (keys s.authorized_buckets)
      → (poll_deltas env K log_at io s events).0 ≡ ok s'
      → ((c : BucketId) → Has c (keys s.authorized_buckets) → IsSettled K log_at s' c)
        × IsSilent s' events' (poll_deltas env K log_at io' s' events')
  unfolding poll_deltas
  poll_deltas-once io io' s s' events events' sound hb h =
      let settled : (c : BucketId) → Has c (keys s.authorized_buckets) → IsSettled K log_at s' c =
        λ c has.
          poll_buckets-IsSettled K env log_at io sound (keys s.authorized_buckets) s events s' c hb
            h (inl has) in
      let same = ap keys (poll_buckets-authorized io (keys s.authorized_buckets) s events s' h) in
      (
        settled,
        subst (λ bs. IsSilent s' events' (poll_buckets env K log_at io' bs s' events')) (sym same)
            (poll_buckets-IsSilent io' sound (keys s.authorized_buckets) s' events' hb settled),
      )
