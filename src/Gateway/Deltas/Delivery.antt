-- ===== src/Gateway/Deltas/Delivery.antt =====
-- crates/pes-gateway/src/connection.rs: what a poll brings to the client.
use prometheus_entity_sync.Base.{
  text_eq, get, get-insert, keys, Has, Has-snoc, Has-prefix, Result, ok, err, some, List, [], ◌∷◌,
  ◌≤◌, ◌<◌, false, Bool-cases, ok-injective, ◌==◌, ==_iff, ◌≡◌, refl, sym, ap, ◌∙◌, inl, inr,
}
use mathlib.Core.Path.{subst}
use prometheus_entity_sync.Core.{BucketId, BucketOp, PgLsn, SyncError, u64_max}
use prometheus_entity_sync.Oplog.Redb.{Backend, StoredOp}
use prometheus_entity_sync.Oplog.Store.{BucketOpLog, Faults, drain_since}
use prometheus_entity_sync.Oplog.Store.View.{Fits, stored_at, IsSound}
use prometheus_entity_sync.Protocol.{delta}
use prometheus_entity_sync.Gateway.Effects.{Env, Event, sent, Conn, pure, continue_conn}
use prometheus_entity_sync.Gateway.Connection.{Session}
use prometheus_entity_sync.Gateway.Deltas.{
  scan_from, or_zero, max_lsn, wire_bucket_id, or_internal, for_wire, deliver_ops, poll_bucket,
  poll_buckets, poll_deltas,
}
use prometheus_entity_sync.Gateway.Deltas.Settled.{IsScan-of}
use prometheus_entity_sync.Gateway.Deltas.Seen.{scan_from-le, sent_then, then_continued}
use prometheus_entity_sync.Gateway.Deltas.Once.{deliver-authorized}

-- Among the events is a delta frame under the given name that holds the op under that name.
abbrev pub IsDelivered : BucketId → BucketOp → List Event → Type 0
IsDelivered wire op events =
    (ops : List BucketOp) × (top : PgLsn) × Has (sent (delta wire ops top)) events
    × Has (record op { bucket_id = wire }) ops

Has-for_wire :
    (wire : BucketId) (op : BucketOp) (ops : List BucketOp)
    → Has op ops
    → Has (record op { bucket_id = wire }) (for_wire wire ops)
Has-for_wire wire op [] h = absurd h
Has-for_wire wire op (o ∷ ops) (inl e) =
    inl (ap (λ (x : BucketOp). record x { bucket_id = wire }) e)
Has-for_wire wire op (o ∷ ops) (inr h) = inr (Has-for_wire wire op ops h)

pub sent-events :
    (r : Result SyncError (Unit {0})) (events : List Event) (s : Session)
    → (continue_conn (r, events) (λ _. pure s)).1 ≡ events
sent-events (ok u) events s = refl
sent-events (err e) events s = refl

continued-Has :
    (ev : Event) (x : Result SyncError Session × List Event) (f : Session → Conn Session)
    → Has ev x.1
    → ((s : Session) (mid : List Event) → Has ev mid → Has ev (f s mid).1)
    → Has ev (continue_conn x f).1
continued-Has ev (ok s, mid) f h k = k s mid h
continued-Has ev (err e, mid) f h k = h

module _ (K : Backend) (env : Env) (log_at : BucketId → BucketOpLog K) (io : Faults) where
  deliver-Has :
      (ev : Event) (s : Session) (b : BucketId) (r : Result SyncError (List BucketOp))
      (events : List Event)
      → Has ev events
      → Has ev (deliver_ops env K log_at io s b r events).1
  deliver-Has ev s b (err e) events h = h
  deliver-Has ev s b (ok []) events h = h
  deliver-Has ev s b (ok (o ∷ os)) events h =
      subst (Has ev) (sym (sent-events (env.send events _) _ _)) (Has-prefix ev _ events h)

  poll_buckets-Has :
      (ev : Event) (bs : List BucketId) (s : Session) (events : List Event)
      → Has ev events
      → Has ev (poll_buckets env K log_at io bs s events).1
  unfolding poll_buckets poll_bucket
  poll_buckets-Has ev [] s events h = h
  poll_buckets-Has ev (b ∷ bs) s events h =
      continued-Has ev (poll_bucket env K log_at io s b events) _ (deliver-Has ev s b _ events h)
        (λ s1 mid k. poll_buckets-Has ev bs s1 mid k)

  deliver-scan_from :
      (s : Session) (b c : BucketId) (r : Result SyncError (List BucketOp)) (events : List Event)
      (s' : Session)
      → (b == c) ≡ false
      → (deliver_ops env K log_at io s b r events).0 ≡ ok s'
      → scan_from s' c ≡ scan_from s c
  deliver-scan_from s b c (err e) events s' other h = cc
  deliver-scan_from s b c (ok []) events s' other h = ap (λ x. scan_from x c) (sym (ok-injective h))
  deliver-scan_from s b c (ok (o ∷ os)) events s' other h =
      ap (λ x. scan_from x c) (sym (sent_then _ _ _ s' h))
      ∙ ap or_zero (get-insert s.last_seen_lsn b (max_lsn o os) c ∙ (rw other refl))

  module _ (sound : (b : BucketId) → IsSound K (log_at b)) (b : BucketId) (st : StoredOp)
      (found : stored_at K (log_at b) b st.op.lsn ≡ some st) (below : st.op.lsn < u64_max)
      (hb : Fits b) where
    deliver-IsDelivered :
        (s : Session) (r : Result SyncError (List BucketOp)) (events : List Event) (s' : Session)
        → scan_from s b ≤ st.op.lsn
        → drain_since K io (log_at b) b (scan_from s b) ≡ r
        → (deliver_ops env K log_at io s b r events).0 ≡ ok s'
        → IsDelivered (wire_bucket_id s b) st.op (deliver_ops env K log_at io s b r events).1
    deliver-IsDelivered s (err e) events s' from d h = cc
    deliver-IsDelivered s (ok []) events s' from d h =
        let scan =
          IsScan-of K env log_at io sound b (scan_from s b) (ok []) [] hb
            (scan_from-le (get s.last_seen_lsn b)) d refl in
        absurd (scan.1 st.op.lsn st from below found)
    deliver-IsDelivered s (ok (o ∷ os)) events s' from d h =
        let scan =
          IsScan-of K env log_at io sound b (scan_from s b) (ok (o ∷ os)) (o ∷ os) hb
            (scan_from-le (get s.last_seen_lsn b)) d refl in
        let wire = wire_bucket_id s b in
        (
          for_wire wire (o ∷ os),
          max_lsn o os,
          subst (Has (sent (delta wire (for_wire wire (o ∷ os)) (max_lsn o os))))
              (sym (sent-events (env.send events _) _ _)) (Has-snoc _ events),
          Has-for_wire wire st.op (o ∷ os) (scan.1 st.op.lsn st from below found),
        )

    poll_buckets-IsDelivered :
        (bs : List BucketId) (s s' : Session) (events : List Event)
        → Has b bs
        → scan_from s b ≤ st.op.lsn
        → (poll_buckets env K log_at io bs s events).0 ≡ ok s'
        → IsDelivered (wire_bucket_id s b) st.op (poll_buckets env K log_at io bs s events).1
    unfolding poll_buckets poll_bucket
    poll_buckets-IsDelivered [] s s' events has from h = absurd has
    poll_buckets-IsDelivered (c ∷ bs) s s' events has from h =
        let (s1, mid, polled, rest) =
          then_continued (poll_bucket env K log_at io s c events) (poll_buckets env K log_at io bs)
            s' h in
        let after = ap (λ x. (continue_conn x (poll_buckets env K log_at io bs)).1) (sym polled) in
        elim (Bool-cases (c == b)) [
          | inl same ↦
              let now =
                subst
                  (λ x.
                    IsDelivered (wire_bucket_id s b) st.op
                      (poll_bucket env K log_at io s x events).1)
                  (sym ((==_iff c b).0 same))
                  (deliver-IsDelivered s _ events s1 from refl (
                    subst (λ x. (poll_bucket env K log_at io s x events).0 ≡ ok s1)
                      ((==_iff c b).0 same) (ap (λ x. x.0) polled))) in
              let (ops, top, was_sent, holds) = now in
              (
                ops,
                top,
                subst (Has _) after
                    (poll_buckets-Has _ bs s1 mid (subst (Has _) (ap (λ x. x.1) polled) was_sent)),
                holds,
              )
          | inr other ↦
              let same_wire : wire_bucket_id s1 b ≡ wire_bucket_id s b =
                ap (λ m. or_internal b (get m b))
                  (deliver-authorized K env log_at io s c _ events s1 (ap (λ x. x.0) polled)) in
              let same_from = deliver-scan_from s c b _ events s1 other (ap (λ x. x.0) polled) in
              let later : Has b bs = elim has [
                | inl e ↦ cc ((==_iff c b).1 e, other)
                | inr k ↦ k
              ] in
              subst (IsDelivered (wire_bucket_id s b) st.op) after (
                subst (λ w. IsDelivered w st.op (poll_buckets env K log_at io bs s1 mid).1)
                  same_wire
                  (poll_buckets-IsDelivered bs s1 s' mid later
                    (subst (λ x. x ≤ st.op.lsn) (sym same_from) from) rest))
        ]

    -- On sound logs, a poll that succeeds has sent every op that is stored, under its own LSN, in a
    -- bucket of the session with an id in range, from where the scan of that bucket starts on and
    -- below `u64::MAX`: in a delta frame under the name by which the client knows the bucket.
    pub poll_deltas-IsDelivered :
        (s s' : Session) (events : List Event)
        → Has b (keys s.authorized_buckets)
        → scan_from s b ≤ st.op.lsn
        → (poll_deltas env K log_at io s events).0 ≡ ok s'
        → IsDelivered (wire_bucket_id s b) st.op (poll_deltas env K log_at io s events).1
    unfolding poll_deltas
    poll_deltas-IsDelivered s s' events has from h =
        poll_buckets-IsDelivered (keys s.authorized_buckets) s s' events has from h
