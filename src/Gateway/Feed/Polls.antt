-- ===== src/Gateway/Feed/Polls.antt =====
-- crates/pes-gateway/src/connection.rs: a poll sends what waits, and no op twice.
use prometheus_entity_sync.Base.{
  text_eq, Map, get, keys, All, Has, each-Has, Result, ok, err, List, [], ◌∷◌, ◌++◌, Bool-cases,
  ok-injective, ◌==◌, ==_iff, false, ◌≡◌, refl, sym, ap, ◌∙◌, inl, inr,
}
use mathlib.Core.Path.{subst}
use prometheus_entity_sync.Core.{BucketAssignment, BucketId, BucketOp, PgLsn, SyncError}
use prometheus_entity_sync.Oplog.Redb.{Backend}
use prometheus_entity_sync.Oplog.Store.{BucketOpLog, Faults, drain_since}
use prometheus_entity_sync.Oplog.Store.View.{Fits}
use prometheus_entity_sync.Protocol.{delta}
use prometheus_entity_sync.Gateway.Effects.{Env, Event, sent, continue_conn}
use prometheus_entity_sync.Gateway.Connection.{Session}
use prometheus_entity_sync.Gateway.Deltas.{
  scan_from, max_lsn, wire_bucket_id, for_wire, deliver_ops, poll_bucket, poll_buckets, poll_deltas,
}
use prometheus_entity_sync.Gateway.Deltas.Seen.{scan_from-le, sent_then, then_continued, seen_after}
use prometheus_entity_sync.Gateway.Deltas.Delivery.{sent-events}
use prometheus_entity_sync.Gateway.Feed.{Feed}
use prometheus_entity_sync.Gateway.Feed.Pending.{scan-IsPending}
use prometheus_entity_sync.Gateway.Feed.Invariant.{
  IsOwnName, IsFed, sent_all, sent_all-IsFed, sent_other-IsFed, wire-own, wire-other,
}

module _ (K : Backend) (env : Env) (b : BucketId) (a : BucketAssignment)
    (authorized : Map BucketId BucketAssignment) (hb : Fits b) (named : IsOwnName authorized b a)
    (first : PgLsn) (accepted : List BucketOp) where
  abbrev Fed : Feed K → Type 0
  Fed = IsFed K env b a authorized hb named first accepted

  module _ (log_at : BucketId → BucketOpLog K) (io : Faults) where
    -- The feed after a delivery.
    abbrev after : Feed K → Session → List Event → Feed K
    after f s events = record f { session = s; events = events }

    moved :
        (f : Feed K) (s s' : Session) (events events' : List Event)
        → s ≡ s'
        → events ≡ events'
        → Fed (after f s events)
        → Fed (after f s' events')
    moved f s s' events events' p q h =
        subst (λ x. Fed (after f x events')) p (subst (λ x. Fed (after f s x)) q h)

    own-IsFed :
        (f : Feed K) (r : Result SyncError (List BucketOp)) (s : Session)
        → log_at b ≡ f.log
        → drain_since K io (log_at b) b (scan_from f.session b) ≡ r
        → (deliver_ops env K log_at io f.session b r f.events).0 ≡ ok s
        → Fed f
        → Fed (after f s (deliver_ops env K log_at io f.session b r f.events).1)
    own-IsFed f (err e) s at d h fed = cc
    own-IsFed f (ok []) s at d h fed =
        moved f f.session s f.events f.events (ok-injective h) refl fed
    own-IsFed f (ok (o ∷ os)) s at d h fed =
        let scanned =
          scan-IsPending K b io f.log (scan_from f.session b) (o ∷ os) fed.sound hb
            (scan_from-le (get f.session.last_seen_lsn b))
            (subst (λ l. drain_since K io l b (scan_from f.session b) ≡ ok (o ∷ os)) at d) in
        let wire = wire-own K env b a authorized hb named first f.session fed.buckets in
        let frame : BucketId → Event = λ x. sent (delta x (for_wire x (o ∷ os)) (max_lsn o os)) in
        moved f (sent_all K env b a authorized hb named first f o os).session s
          (sent_all K env b a authorized hb named first f o os).events _ (sent_then _ _ _ s h)
          (ap (λ x. f.events ++ frame x ∷ []) (sym wire)
            ∙ sym (sent-events (env.send f.events _) _ _))
          (sent_all-IsFed K env b a authorized hb named first io accepted f o os fed scanned)

    other-IsFed :
        (f : Feed K) (c : BucketId) (r : Result SyncError (List BucketOp)) (s : Session)
        → Has c (keys authorized)
        → (c == b) ≡ false
        → (deliver_ops env K log_at io f.session c r f.events).0 ≡ ok s
        → Fed f
        → Fed (after f s (deliver_ops env K log_at io f.session c r f.events).1)
    other-IsFed f c (err e) s has other h fed = cc
    other-IsFed f c (ok []) s has other h fed =
        moved f f.session s f.events f.events (ok-injective h) refl fed
    other-IsFed f c (ok (o ∷ os)) s has other h fed =
        let wire = wire_bucket_id f.session c in
        moved f (seen_after f.session c (max_lsn o os)) s
          (f.events ++ sent (delta wire (for_wire wire (o ∷ os)) (max_lsn o os)) ∷ []) _
          (sent_then _ _ _ s h) (sym (sent-events (env.send f.events _) _ _))
          (sent_other-IsFed K env b a authorized hb named first accepted f c wire
            (for_wire wire (o ∷ os)) (max_lsn o os) other
            (wire-other K env b a authorized hb named first f.session c fed.buckets has other) fed)

    poll_bucket-IsFed :
        (f : Feed K) (c : BucketId) (s : Session)
        → log_at b ≡ f.log
        → Has c (keys authorized)
        → (poll_bucket env K log_at io f.session c f.events).0 ≡ ok s
        → Fed f
        → Fed (after f s (poll_bucket env K log_at io f.session c f.events).1)
    unfolding poll_bucket
    poll_bucket-IsFed f c s at has h fed = elim (Bool-cases (c == b)) [
      | inr other ↦
          other-IsFed f c (drain_since K io (log_at c) c (scan_from f.session c)) s has other h fed
      | inl same ↦
          let e : b ≡ c = sym ((==_iff c b).0 same) in
          subst
            (λ x.
              (poll_bucket env K log_at io f.session x f.events).0 ≡ ok s
              → Fed (after f s (poll_bucket env K log_at io f.session x f.events).1))
            e
            (λ k.
              own-IsFed f (drain_since K io (log_at b) b (scan_from f.session b)) s at refl k fed)
            h
    ]

    poll_buckets-IsFed :
        (cs : List BucketId) (f : Feed K) (s : Session)
        → log_at b ≡ f.log
        → All (λ c. Has c (keys authorized)) cs
        → (poll_buckets env K log_at io cs f.session f.events).0 ≡ ok s
        → Fed f
        → Fed (after f s (poll_buckets env K log_at io cs f.session f.events).1)
    unfolding poll_buckets
    poll_buckets-IsFed [] f s at has h fed =
        moved f f.session s f.events f.events (ok-injective h) refl fed
    poll_buckets-IsFed (c ∷ cs) f s at has h fed =
        let x = poll_bucket env K log_at io f.session c f.events in
        let (s1, mid, polled, rest) = then_continued x (poll_buckets env K log_at io cs) s h in
        let now : Fed (after f s1 mid) =
          moved f s1 s1 x.1 mid refl (ap (λ y. y.1) polled)
            (poll_bucket-IsFed f c s1 at has.0 (ap (λ y. y.0) polled) fed) in
        moved f s s (poll_buckets env K log_at io cs s1 mid).1 _ refl
          (ap (λ y. (continue_conn y (poll_buckets env K log_at io cs)).1) (sym polled))
          (poll_buckets-IsFed cs (after f s1 mid) s at has.1 rest now)

    pub poll_deltas-IsFed :
        (f : Feed K) (s : Session)
        → log_at b ≡ f.log
        → (poll_deltas env K log_at io f.session f.events).0 ≡ ok s
        → Fed f
        → Fed (after f s (poll_deltas env K log_at io f.session f.events).1)
    unfolding poll_deltas
    poll_deltas-IsFed f s at h fed =
        poll_buckets-IsFed (keys f.session.authorized_buckets) f s at
          (subst (λ m. All (λ c. Has c (keys authorized)) (keys m)) (sym fed.buckets)
            (each-Has (keys authorized)))
          h fed
