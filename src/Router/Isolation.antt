-- ===== src/Router/Isolation.antt =====
-- crates/pes-router/src/router.rs: which buckets an event reaches.
use prometheus_entity_sync.Base.{
  Text, text_eq, ◌==◌, All, Result, ok, err, ℕ, ◌≤◌, List, [], ◌∷◌, false, ◌≡◌, refl, ap, ◌∙◌, inl,
  inr, nat_eq,
}
use prometheus_entity_sync.Core.{BucketId, BucketOp, PgLsn, u64_max}
use prometheus_entity_sync.Core.Values.{Json}
use prometheus_entity_sync.Oplog.Redb.{Backend}
use prometheus_entity_sync.Oplog.Store.{BucketOpLog, Faults, append}
use prometheus_entity_sync.Oplog.Store.View.{Fits, IsSound, stored_at, running_checksum}
use prometheus_entity_sync.Oplog.Store.Append.{append_atomic, append-IsSound}
use prometheus_entity_sync.Rules.Assigner.{BucketAssigner, find_affected_buckets}
use prometheus_entity_sync.Router.{
  EntityChange, routed_op, append_each, route_change, route_one_event,
}

module _ (K : Backend) where
  -- The two logs agree on a bucket.
  abbrev pub IsSame : BucketOpLog K → BucketOpLog K → BucketId → Type 0
  IsSame log log' c =
      ((m : PgLsn) → m ≤ u64_max → stored_at K log' c m ≡ stored_at K log c m)
      × (running_checksum K log' c ≡ running_checksum K log c)

  append-IsSame :
      (io : Faults) (now : ℕ) (log : BucketOpLog K) (b c : BucketId) (lsn : PgLsn) (op : BucketOp)
      → Fits b
      → Fits c
      → lsn ≤ u64_max
      → (b == c) ≡ false
      → IsSame log (append K io now log b lsn op).1 c
  append-IsSame io now log b c lsn op hb hc hl other =
      elim (append_atomic K io now log b lsn op hb hl) [
        | inl (e, failed) ↦ (
          (λ m hm. ap (λ x. stored_at K x.1 c m) failed),
          ap (λ x. running_checksum K x.1 c) failed,
        )
        | inr (p, written, done, stored, sums) ↦
            ((λ m hm. stored c m hc hm ∙ rw other refl), sums c ∙ rw other refl)
      ]

  module _ (io : BucketId → Faults) (now : ℕ) (ch : EntityChange) (lsn : PgLsn)
      (hl : lsn ≤ u64_max) where
    append_each-IsSame :
        (bs : List BucketId) (log : BucketOpLog K) (c : BucketId)
        → All Fits bs
        → Fits c
        → All (λ b. (b == c) ≡ false) bs
        → IsSame log (append_each K io now ch lsn bs log).1 c
    unfolding append_each
    append_each-IsSame [] log c hb hc other = ((λ m hm. refl), refl)
    append_each-IsSame (b ∷ bs) log c hb hc other =
        let log' = (append K (io b) now log b lsn (routed_op ch lsn b)).1 in
        let first = append-IsSame (io b) now log b c lsn (routed_op ch lsn b) hb.0 hc hl other.0 in
        let rest = append_each-IsSame bs log' c hb.1 hc other.1 in
        ((λ m hm. rest.0 m hm ∙ first.0 m hm), rest.1 ∙ first.1)

    append_each-IsSound :
        (bs : List BucketId) (log : BucketOpLog K)
        → All Fits bs
        → IsSound K log
        → IsSound K (append_each K io now ch lsn bs log).1
    unfolding append_each
    append_each-IsSound [] log hb sound = sound
    append_each-IsSound (b ∷ bs) log hb sound =
        append_each-IsSound bs (append K (io b) now log b lsn (routed_op ch lsn b)).1 hb.1
          (append-IsSound K (io b) now log b (routed_op ch lsn b) hb.0 hl sound)

  -- The buckets that the event is routed to, in the order of the appends.
  abbrev pub routed_to :
      BucketAssigner
      → ℕ
      → (List BucketId → List BucketId)
      → Result Text EntityChange
      → List BucketId
  routed_to a instant order (err e) = []
  routed_to a instant order (ok ch) = order (find_affected_buckets a instant ch.entity_type ch.row)

  route_change-isolated :
      (io : BucketId → Faults) (now : ℕ) (a : BucketAssigner) (instant : ℕ)
      (order : List BucketId → List BucketId) (offset : PgLsn) (d : Result Text EntityChange)
      (log : BucketOpLog K) (c : BucketId)
      → offset ≤ u64_max
      → All Fits (routed_to a instant order d)
      → Fits c
      → All (λ b. (b == c) ≡ false) (routed_to a instant order d)
      → IsSound K log
      → IsSame log (route_change K io now a instant order offset d log).1 c
        × IsSound K (route_change K io now a instant order offset d log).1
  route_change-isolated io now a instant order offset (err e) log c hl hb hc other sound =
      (((λ m hm. refl), refl), sound)
  route_change-isolated io now a instant order offset (ok ch) log c hl hb hc other sound =
      let bs = order (find_affected_buckets a instant ch.entity_type ch.row) in
      (
        append_each-IsSame io now ch offset hl bs log c hb hc other,
        append_each-IsSound io now ch offset hl bs log hb sound,
      )

  -- Routing an event keeps a sound log sound and leaves the ops and the checksum of every bucket that
  -- is not among the affected ones as they were, whatever appends fail and in whatever order the
  -- appends are made, for bucket ids and an offset in range.
  pub route_one_event-IsSame :
      (io : BucketId → Faults) (now : ℕ) (a : BucketAssigner) (instant : ℕ)
      (order : List BucketId → List BucketId) (decode : Json → Result Text EntityChange)
      (offset : PgLsn) (payload : Json) (log : BucketOpLog K) (c : BucketId)
      → offset ≤ u64_max
      → All Fits (routed_to a instant order (decode payload))
      → Fits c
      → All (λ b. (b == c) ≡ false) (routed_to a instant order (decode payload))
      → IsSound K log
      → IsSame log (route_one_event K io now a instant order decode offset payload log).1 c
        × IsSound K (route_one_event K io now a instant order decode offset payload log).1
  unfolding route_one_event
  route_one_event-IsSame io now a instant order decode offset payload log c hl hb hc other sound =
      route_change-isolated io now a instant order offset (decode payload) log c hl hb hc other
        sound
