-- ===== src/Server/Delivery.antt =====
-- From an event of the WAL to the client: crates/pes-router/src/router.rs writes it into the log of each
-- affected bucket, and crates/pes-gateway/src/connection.rs sends what it finds there.
use prometheus_entity_sync.Base.{
  Text, text_eq, keys, All, Has, Result, ok, err, none, some, List, [], ◌∷◌, ℕ, ◌≤◌, ◌<◌,
  Bool-cases, ok-injective, nat_eq, ◌==◌, ==_iff, ==_refl, ◌≡◌, refl, ap, ◌∙◌, ◌⊎◌, inl, inr, arith,
}
use mathlib.Core.Path.{subst}
use prometheus_entity_sync.Core.{BucketId, PgLsn, SyncError, u64_max}
use prometheus_entity_sync.Core.Values.{Json}
use prometheus_entity_sync.Oplog.Redb.{Backend}
use prometheus_entity_sync.Oplog.Store.{BucketOpLog, Faults, Call, append}
use prometheus_entity_sync.Oplog.Store.View.{Fits, stored_at, IsSound}
use prometheus_entity_sync.Oplog.Store.Append.{append_atomic, stamped}
use prometheus_entity_sync.Rules.Assigner.{BucketAssigner}
use prometheus_entity_sync.Router.{
  EntityChange, routed_op, if_appended, append_each, route_change, route_one_event,
}
use prometheus_entity_sync.Router.Isolation.{routed_to}
use prometheus_entity_sync.Gateway.Effects.{Env, Event}
use prometheus_entity_sync.Gateway.Connection.{Session}
use prometheus_entity_sync.Gateway.Deltas.{scan_from, wire_bucket_id, poll_deltas}
use prometheus_entity_sync.Protocol.{ServerMessage}
use prometheus_entity_sync.Gateway.Deltas.Total.{Succeeds, poll_deltas-Succeeds}
use prometheus_entity_sync.Gateway.Deltas.Delivery.{IsDelivered, poll_deltas-IsDelivered}

module _ (K : Backend) (io : BucketId → Faults) (now : ℕ) (ch : EntityChange) (lsn : PgLsn)
    (hl : lsn ≤ u64_max) where
  abbrev IsStored : BucketOpLog K → BucketId → Type 0
  IsStored log b = stored_at K log b lsn ≡ some (stamped K now (routed_op ch lsn b))

  abbrev one_append : BucketId → BucketOpLog K → Result SyncError PgLsn × BucketOpLog K
  one_append b log = append K (io b) now log b lsn (routed_op ch lsn b)

  append-keeps :
      (log : BucketOpLog K) (b c : BucketId)
      → Fits b
      → Fits c
      → IsStored log c
      → IsStored (one_append b log).1 c
  append-keeps log b c hb hc h =
      elim (append_atomic K (io b) now log b lsn (routed_op ch lsn b) hb hl) [
        | inl (e, failed) ↦ ap (λ x. stored_at K x.1 c lsn) failed ∙ h
        | inr (p, written, done, stored, sums) ↦ elim (Bool-cases (b == c)) [
          | inl same ↦
              stored c lsn hc hl
              ∙ (rw (same, ==_refl lsn)
                  (ap (λ x. some (stamped K now (routed_op ch lsn x))) ((==_iff b c).0 same)))
          | inr other ↦ stored c lsn hc hl ∙ (rw other h)
        ]
      ]

  append-stores :
      (log : BucketOpLog K) (b : BucketId) (l : PgLsn)
      → Fits b
      → (one_append b log).0 ≡ ok l
      → IsStored (one_append b log).1 b
  append-stores log b l hb good =
      elim (append_atomic K (io b) now log b lsn (routed_op ch lsn b) hb hl) [
        | inl (e, failed) ↦ cc (good, ap (λ x. x.0) failed)
        | inr (p, written, done, stored, sums) ↦
            stored b lsn hb hl ∙ (rw (==_refl b, ==_refl lsn) refl)
      ]

  append_each-keeps :
      (bs : List BucketId) (log : BucketOpLog K) (c : BucketId)
      → All Fits bs
      → Fits c
      → IsStored log c
      → IsStored (append_each K io now ch lsn bs log).1 c
  unfolding append_each
  append_each-keeps [] log c hb hc h = h
  append_each-keeps (b ∷ bs) log c hb hc h =
      append_each-keeps bs (one_append b log).1 c hb.1 hc (append-keeps log b c hb.0 hc h)

  if_appended-Has :
      (r : Result SyncError PgLsn) (b c : BucketId) (routed : List BucketId)
      → Has c (if_appended K io now r b routed)
      → ((b ≡ c) × (l : PgLsn) × (r ≡ ok l)) ⊎ Has c routed
  if_appended-Has (ok l) b c routed (inl e) = inl (e, l, refl)
  if_appended-Has (ok l) b c routed (inr h) = inr h
  if_appended-Has (err e) b c routed h = inr h

  append_each-stores :
      (bs : List BucketId) (log : BucketOpLog K) (c : BucketId)
      → All Fits bs
      → Fits c
      → Has c (append_each K io now ch lsn bs log).0
      → IsStored (append_each K io now ch lsn bs log).1 c
  unfolding append_each
  append_each-stores [] log c hb hc h = absurd h
  append_each-stores (b ∷ bs) log c hb hc h =
      let log' = (one_append b log).1 in
      elim (if_appended-Has (one_append b log).0 b c (append_each K io now ch lsn bs log').0 h) [
        | inl (same, l, good) ↦
            append_each-keeps bs log' c hb.1 hc
              (subst (IsStored log') same (append-stores log b l hb.0 good))
        | inr later ↦ append_each-stores bs log' c hb.1 hc later
      ]

module _ (K : Backend) where
  route_change-stores :
      (io : BucketId → Faults) (now : ℕ) (a : BucketAssigner) (instant : ℕ)
      (order : List BucketId → List BucketId) (offset : PgLsn) (ch : EntityChange)
      (d : Result Text EntityChange) (log : BucketOpLog K) (b : BucketId)
      → d ≡ ok ch
      → offset ≤ u64_max
      → All Fits (routed_to K a instant order d)
      → Fits b
      → Has b (route_change K io now a instant order offset d log).0
      → stored_at K (route_change K io now a instant order offset d log).1 b offset
        ≡ some (stamped K now (routed_op ch offset b))
  route_change-stores io now a instant order offset ch (err e) log b d hl fits hb h = absurd h
  route_change-stores io now a instant order offset ch (ok c) log b d hl fits hb h =
      append_each-stores K io now c offset hl _ log b fits hb h
      ∙ ap (λ x. some (stamped K now (routed_op x offset b))) (ok-injective d)

  -- An event that decodes and whose append to a bucket has succeeded reaches the clients of that
  -- bucket, for an offset below `u64::MAX` and bucket ids in range: if the logs at the next poll are
  -- sound and that of the bucket still has what stood there at that offset, no call of the database
  -- fails and the socket takes every message, then the poll of a session that has the bucket and has
  -- seen no LSN of it from that offset on succeeds and sends a delta frame, under the client's name
  -- of the bucket, with the op of the event.
  pub event-IsDelivered :
      (io : BucketId → Faults) (now : ℕ) (a : BucketAssigner) (instant : ℕ)
      (order : List BucketId → List BucketId) (decode : Json → Result Text EntityChange)
      (offset : PgLsn) (payload : Json) (log : BucketOpLog K) (ch : EntityChange) (b : BucketId)
      (env : Env) (log_at : BucketId → BucketOpLog K) (faults : Faults) (s : Session)
      (events : List Event)
      → decode payload ≡ ok ch
      → offset < u64_max
      → All Fits (routed_to K a instant order (decode payload))
      → Fits b
      → Has b (route_one_event K io now a instant order decode offset payload log).0
      → ((c : BucketId) → IsSound K (log_at c))
      → stored_at K (log_at b) b offset
        ≡ stored_at K
            (route_one_event K io now a instant order decode offset payload log).1
            b
            offset
      → ((c : Call) → faults c ≡ none)
      → ((es : List Event) (m : ServerMessage) → env.send es m ≡ ok tt)
      → All Fits (keys s.authorized_buckets)
      → Has b (keys s.authorized_buckets)
      → scan_from s b ≤ offset
      → Succeeds (poll_deltas env K log_at faults s events)
        × IsDelivered
            (wire_bucket_id s b)
            (routed_op ch offset b)
            (poll_deltas env K log_at faults s events).1
  unfolding route_one_event
  event-IsDelivered io now a instant order decode offset payload log ch b env log_at faults s events
        d below fits hb routed sound kept none_fails takes_all in_range has from =
      let stored =
        kept
        ∙ route_change-stores io now a instant order offset ch (decode payload) log b d
            (omega (arith, below)) fits hb routed in
      let done =
        poll_deltas-Succeeds K env log_at faults none_fails takes_all sound s events in_range in
      (
        done,
        poll_deltas-IsDelivered K env log_at faults sound b (stamped K now (routed_op ch offset b))
            stored below hb s done.0 events has from done.1,
      )
