-- ===== src/Gateway/Deltas/Wire.antt =====
-- crates/pes-gateway/src/connection.rs: the frames that `poll_deltas` puts on the wire.
use prometheus_entity_sync.Base.{
  text_eq, Map, get, keys, All, Has, each-Has, Result, ok, err, some, List, [], ◌∷◌, ◌++◌, ◌≤◌,
  Bool-cases, ◌==◌, ==_iff, ◌≡◌, refl, sym, ap, ◌∙◌, inl, inr,
}
use mathlib.Core.Path.{subst}
use mathlib.Core.List.{append-nil}
use prometheus_entity_sync.Core.{BucketAssignment, BucketId, BucketOp, PgLsn, SyncError}
use prometheus_entity_sync.Oplog.Redb.{Backend}
use prometheus_entity_sync.Oplog.Store.{BucketOpLog, Faults, drain_since}
use prometheus_entity_sync.Protocol.{ServerMessage, delta}
use prometheus_entity_sync.Gateway.Effects.{
  Env, Event, sent, fetched, executed, Conn, pure, continue_conn,
}
use prometheus_entity_sync.Gateway.Writes.Emits.{Emits, Emits-one, Emits-append}
use prometheus_entity_sync.Gateway.Connection.{Session}
use prometheus_entity_sync.Gateway.Deltas.{
  scan_from, max_lsn, wire_bucket_id, or_internal, for_wire, deliver_ops, poll_bucket, poll_buckets,
  poll_deltas,
}
use prometheus_entity_sync.Gateway.Deltas.Seen.{max_lsn-le}

-- A delta frame for one of the buckets: it and its ops bear the id of the bucket's rule, and the
-- frame's LSN is not below any op's.
abbrev pub IsDeltaFrame : Map BucketId BucketAssignment → ServerMessage → Type 0
IsDeltaFrame authorized (delta wire ops top) =
    (b : BucketId) × (a : BucketAssignment) × (get authorized b ≡ some a)
    × (wire ≡ a.rule_id)
    × All (λ o. (o.bucket_id ≡ a.rule_id) × (o.lsn ≤ top)) ops
IsDeltaFrame authorized _ = ⊥

abbrev pub IsOnWire : Map BucketId BucketAssignment → Event → Type 0
IsOnWire authorized (sent m) = IsDeltaFrame authorized m
IsOnWire authorized (fetched sql binds) = ⊥
IsOnWire authorized (executed sql binds) = ⊥

for_wire-All :
    (wire : BucketId) (top : PgLsn) (ops : List BucketOp)
    → All (λ o. o.lsn ≤ top) ops
    → All (λ o. (o.bucket_id ≡ wire) × (o.lsn ≤ top)) (for_wire wire ops)
for_wire-All wire top [] h = tt
for_wire-All wire top (o ∷ ops) h = ((refl, h.0), for_wire-All wire top ops h.1)

pub keys-get :
    (m : Map BucketId BucketAssignment) (b : BucketId)
    → Has b (keys m)
    → (a : BucketAssignment) × (get m b ≡ some a)
unfolding get
keys-get [] b h = absurd h
keys-get ((c, a) ∷ m) b (inl e) = (a, rw ((==_iff c b).1 e) refl)
keys-get ((c, a) ∷ m) b (inr h) = elim (Bool-cases (c == b)) [
  | inl same ↦ (a, rw same refl)
  | inr other ↦ rw other (keys-get m b h)
]

-- A session that is returned has the buckets.
abbrev Keeps : Map BucketId BucketAssignment → Result SyncError Session → Type 0
Keeps bs (ok s) = s.authorized_buckets ≡ bs
Keeps bs (err e) = Unit

Keeps-sent :
    (r : Result SyncError (Unit {0})) (events : List Event) (s : Session)
    (bs : Map BucketId BucketAssignment)
    → s.authorized_buckets ≡ bs
    → Keeps bs (continue_conn (r, events) (λ _. pure s)).0
Keeps-sent (ok u) events s bs h = h
Keeps-sent (err e) events s bs h = tt

-- What a poll emits, for any predicate that holds of the frames it may send: those with the ops that a
-- scan of a bucket of the session gave, under the id of the bucket's rule.
module _ (K : Backend) (env : Env) (log_at : BucketId → BucketOpLog K) (io : Faults)
    (authorized : Map BucketId BucketAssignment) (P : Event → Type 0)
    (frame : (b : BucketId) (a : BucketAssignment) (from : PgLsn) (o : BucketOp)
        (os : List BucketOp)
      → get authorized b ≡ some a
      → drain_since K io (log_at b) b from ≡ ok (o ∷ os)
      → P (sent (delta a.rule_id (for_wire a.rule_id (o ∷ os)) (max_lsn o os)))) where
  sent-Emits :
      (r : Result SyncError (Unit {0})) (events : List Event) (ev : Event) (s : Session)
      → P ev
      → Emits P events (continue_conn (r, events ++ ev ∷ []) (λ _. pure s)).1
  sent-Emits (ok u) events ev s h = Emits-one P events ev h
  sent-Emits (err e) events ev s h = Emits-one P events ev h

  deliver-Emits :
      (s : Session) (b : BucketId) (r : Result SyncError (List BucketOp)) (events : List Event)
      (a : BucketAssignment)
      → s.authorized_buckets ≡ authorized
      → get authorized b ≡ some a
      → drain_since K io (log_at b) b (scan_from s b) ≡ r
      → Emits P events (deliver_ops env K log_at io s b r events).1
  deliver-Emits s b (err e) events a same found d = ([], sym (append-nil events), tt)
  deliver-Emits s b (ok []) events a same found d = ([], sym (append-nil events), tt)
  deliver-Emits s b (ok (o ∷ os)) events a same found d =
      let wire : wire_bucket_id s b ≡ a.rule_id =
        ap (λ m. or_internal b (get m b)) same ∙ ap (or_internal b) found in
      sent-Emits _ events _ _ (
        subst (λ x. P (sent (delta x (for_wire x (o ∷ os)) (max_lsn o os)))) (sym wire)
          (frame b a (scan_from s b) o os found d))

  same_buckets :
      (s : Session) (b : BucketId) (r : Result SyncError (List BucketOp)) (events : List Event)
      → (bs : Map BucketId BucketAssignment) → s.authorized_buckets ≡ bs
      → Keeps bs (deliver_ops env K log_at io s b r events).0
  same_buckets s b (err e) events bs h = tt
  same_buckets s b (ok []) events bs h = h
  same_buckets s b (ok (o ∷ os)) events bs h = Keeps-sent (env.send events _) _ _ bs h

  Emits-continued :
      (events : List Event) (x : Result SyncError Session × List Event) (f : Session → Conn Session)
      → Emits P events x.1
      → Keeps authorized x.0
      → ((s : Session) (mid : List Event)
          → s.authorized_buckets ≡ authorized
          → Emits P mid (f s mid).1)
      → Emits P events (continue_conn x f).1
  Emits-continued events (ok s, mid) f h k g = Emits-append P events mid _ h (g s mid k)
  Emits-continued events (err e, mid) f h k g = h

  poll_buckets-Emits :
      (bs : List BucketId) (s : Session) (events : List Event)
      → s.authorized_buckets ≡ authorized
      → All (λ b. Has b (keys authorized)) bs
      → Emits P events (poll_buckets env K log_at io bs s events).1
  unfolding poll_buckets poll_bucket
  poll_buckets-Emits [] s events same h = ([], sym (append-nil events), tt)
  poll_buckets-Emits (b ∷ bs) s events same h =
      let (a, found) = keys-get authorized b h.0 in
      Emits-continued events (poll_bucket env K log_at io s b events)
        (poll_buckets env K log_at io bs)
        (deliver-Emits s b (drain_since K io (log_at b) b (scan_from s b)) events a same found refl)
        (same_buckets s b (drain_since K io (log_at b) b (scan_from s b)) events authorized same)
        (λ s1 mid same'. poll_buckets-Emits bs s1 mid same' h.1)

  pub poll_deltas-Emits :
      (s : Session) (events : List Event)
      → s.authorized_buckets ≡ authorized
      → Emits P events (poll_deltas env K log_at io s events).1
  unfolding poll_deltas
  poll_deltas-Emits s events same =
      subst (λ m. Emits P events (poll_buckets env K log_at io (keys m) s events).1) (sym same)
        (poll_buckets-Emits (keys authorized) s events same (each-Has (keys authorized)))

module _ (K : Backend) (env : Env) (log_at : BucketId → BucketOpLog K) (io : Faults) where
  -- A poll does nothing but send delta frames for buckets of the session, whatever its outcome: each
  -- frame and each op in it bears the id of the bucket's rule in place of the internal bucket id, and the LSN of
  -- the frame, which the client acknowledges, is not below that of any op in it.
  pub poll_deltas-IsOnWire :
      (s : Session) (events : List Event)
      → Emits (IsOnWire s.authorized_buckets) events (poll_deltas env K log_at io s events).1
  poll_deltas-IsOnWire s events =
      poll_deltas-Emits K env log_at io s.authorized_buckets (IsOnWire s.authorized_buckets)
        (λ b a from o os found d.
          (b, a, found, refl, for_wire-All a.rule_id (max_lsn o os) (o ∷ os) (max_lsn-le o os)))
        s events refl
