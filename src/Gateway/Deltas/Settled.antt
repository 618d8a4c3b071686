-- ===== src/Gateway/Deltas/Settled.antt =====
-- crates/pes-gateway/src/connection.rs: what a poll leaves behind.
use prometheus_entity_sync.Base.{
  text_eq, get, insert, get-insert_self, All, All-Has, All-map_weaken, Has, Result, ok, err, some,
  List, [], ◌∷◌, ◌+◌, ◌≤◌, ◌<◌, false, Bool-cases, ok-injective, Option-cases, ==_iff, ◌==◌, ◌≡◌,
  refl, sym, ap, ◌∙◌, ◌⊎◌, inl, inr, arith,
}
use mathlib.Core.Path.{subst}
use prometheus_entity_sync.Core.{BucketId, BucketOp, PgLsn, SyncError, u64_max}
use prometheus_entity_sync.Oplog.Key.Order.{lsn_from_key-make_key}
use prometheus_entity_sync.Oplog.Key.{make_key, lsn_from_key}
use prometheus_entity_sync.Oplog.Redb.{Backend, StoredOp, OrderedTable}
use prometheus_entity_sync.Oplog.Store.{BucketOpLog, Faults, drain_since}
use prometheus_entity_sync.Oplog.Store.View.{Fits, stored_at, IsSound, decode_value}
use prometheus_entity_sync.Oplog.Store.Drain.{drain_since_exact}
use prometheus_entity_sync.Gateway.Effects.{Env, Event}
use prometheus_entity_sync.Gateway.Connection.{Session}
use prometheus_entity_sync.Gateway.Deltas.{
  scan_from, or_zero, max_lsn, deliver_ops, poll_bucket, poll_buckets,
}
use prometheus_entity_sync.Gateway.Deltas.Seen.{
  max_lsn-le, max_lsn-Has, scan_from-le, next_lsn, sent_then, then_continued, seen_after-other,
}

module _ (K : Backend) where
  -- What is stored at an LSN has that LSN.
  pub stored-lsn :
      (log : BucketOpLog K) (b : BucketId) (l : PgLsn) (st : StoredOp)
      → IsSound K log
      → l ≤ u64_max
      → stored_at K log b l ≡ some st
      → st.op.lsn ≡ l
  stored-lsn log b l st sound hl h =
      elim (Option-cases (OrderedTable.get_value K.ops log.bucket_ops (make_key b l))) [
        | inl missing ↦ cc (rw missing at h)
        | inr (v, found) ↦
            let en = sound.entry (make_key b l) v found in
            let decoded : decode_value K (some v) ≡ some st = rw found at h in
            let same : some en.stored ≡ some st = rw en.decodes at decoded in
            cc (
              same,
              lsn_from_key-make_key b l hl,
              ap lsn_from_key en.key,
              lsn_from_key-make_key en.bucket en.stored.op.lsn en.lsn_fits,
            )
      ]

  -- Nothing is stored in the range that the next scan of the bucket reads.
  abbrev pub IsSettled : (BucketId → BucketOpLog K) → Session → BucketId → Type 0
  IsSettled log_at s b =
      (l : PgLsn) (st : StoredOp)
      → scan_from s b ≤ l
      → l < u64_max
      → stored_at K (log_at b) b l ≡ some st
      → ⊥

  module _ (env : Env) (log_at : BucketId → BucketOpLog K) (io : Faults)
      (sound : (b : BucketId) → IsSound K (log_at b)) where
    abbrev pub Stored : BucketId → PgLsn → BucketOp → Type 0
    Stored b from o =
        (from ≤ o.lsn)
        × (o.lsn < u64_max)
        × (st : StoredOp) × (stored_at K (log_at b) b o.lsn ≡ some st)
        × (st.op ≡ o)

    -- What a scan gave.
    abbrev pub IsScan : BucketId → PgLsn → List BucketOp → Type 0
    IsScan b from os =
        All (Stored b from) os
        × ((l : PgLsn) (st : StoredOp)
            → from ≤ l
            → l < u64_max
            → stored_at K (log_at b) b l ≡ some st
            → Has st.op os)

    pub IsScan-of :
        (b : BucketId) (from : PgLsn) (r : Result SyncError (List BucketOp)) (os : List BucketOp)
        → Fits b
        → from ≤ u64_max
        → drain_since K io (log_at b) b from ≡ r
        → r ≡ ok os
        → IsScan b from os
    IsScan-of b from r os hb hf e h =
        elim (drain_since_exact K io (log_at b) b from (sound b) hb hf) [
          | inl (e', failed) ↦ cc
          | inr (os', done, ascending, each, every) ↦
              let same : os' ≡ os = ok-injective (sym done ∙ e ∙ h) in
              subst (IsScan b from) same (each, every)
        ]

    pub scan-IsSettled :
        (s : Session) (b : BucketId) (o : BucketOp) (os : List BucketOp)
        → IsScan b (scan_from s b) (o ∷ os)
        → IsSettled log_at (record s { last_seen_lsn = insert s.last_seen_lsn b (max_lsn o os) }) b
    scan-IsSettled s b o os (each, every) l st hf hl h =
        let top = max_lsn o os in
        let below : top < u64_max =
          max_lsn-Has (λ m. m < u64_max) o os
            (All-map_weaken (Stored b (scan_from s b)) (λ (q : BucketOp). q.lsn < u64_max)
              (λ q k. k.1) (o ∷ os) each) in
        let above : scan_from s b ≤ top =
          max_lsn-Has (λ m. scan_from s b ≤ m) o os
            (All-map_weaken (Stored b (scan_from s b)) (λ (q : BucketOp). scan_from s b ≤ q.lsn)
              (λ q k. k.0) (o ∷ os) each) in
        let next : scan_from (record s { last_seen_lsn = insert s.last_seen_lsn b top }) b
            ≡ top + 1 =
          ap or_zero (get-insert_self s.last_seen_lsn b top) ∙ next_lsn top below in
        let from : top + 1 ≤ l = subst (λ x. x ≤ l) next hf in
        let listed : Has st.op (o ∷ os) = every l st (omega (arith, above, from)) hl h in
        let bounded : st.op.lsn ≤ top =
          All-Has (λ (q : BucketOp). q.lsn ≤ top) st.op (o ∷ os) (max_lsn-le o os) listed in
        let same : st.op.lsn ≡ l = stored-lsn (log_at b) b l st (sound b) (omega (arith, hl)) h in
        omega (arith, bounded, same, from)

    pub deliver-IsSettled :
        (s : Session) (b : BucketId) (r : Result SyncError (List BucketOp)) (events : List Event)
        (s' : Session)
        → Fits b
        → drain_since K io (log_at b) b (scan_from s b) ≡ r
        → (deliver_ops env K log_at io s b r events).0 ≡ ok s'
        → IsSettled log_at s' b
    deliver-IsSettled s b (err e) events s' hb d h = cc
    deliver-IsSettled s b (ok []) events s' hb d h =
        let scan =
          IsScan-of b (scan_from s b) (ok []) [] hb (scan_from-le (get s.last_seen_lsn b)) d refl in
        let same : s ≡ s' = ok-injective h in
        subst (λ x. IsSettled log_at x b) same (λ l st hf hl g. absurd (scan.1 l st hf hl g))
    deliver-IsSettled s b (ok (o ∷ os)) events s' hb d h =
        let scan =
          IsScan-of b (scan_from s b) (ok (o ∷ os)) (o ∷ os) hb
            (scan_from-le (get s.last_seen_lsn b)) d refl in
        let done = sent_then _ _ _ s' h in
        subst (λ x. IsSettled log_at x b) done (scan-IsSettled s b o os scan)

    deliver-keeps :
        (s : Session) (b c : BucketId) (r : Result SyncError (List BucketOp)) (events : List Event)
        (s' : Session)
        → (b == c) ≡ false
        → (deliver_ops env K log_at io s b r events).0 ≡ ok s'
        → IsSettled log_at s c
        → IsSettled log_at s' c
    deliver-keeps s b c (err e) events s' other h k = cc
    deliver-keeps s b c (ok []) events s' other h k =
        subst (λ x. IsSettled log_at x c) (ok-injective h) k
    deliver-keeps s b c (ok (o ∷ os)) events s' other h k =
        subst (λ x. IsSettled log_at x c) (sent_then _ _ _ s' h)
          (λ l st hf. k l st (subst (λ x. x ≤ l) (seen_after-other s b c (max_lsn o os) other) hf))

    poll_bucket-IsSettled :
        (s : Session) (b c : BucketId) (events : List Event) (s' : Session)
        → Fits b
        → (poll_bucket env K log_at io s b events).0 ≡ ok s'
        → (b ≡ c) ⊎ IsSettled log_at s c
        → IsSettled log_at s' c
    unfolding poll_bucket
    poll_bucket-IsSettled s b c events s' hb h k = elim (Bool-cases (b == c)) [
      | inl same ↦
          subst (IsSettled log_at s') ((==_iff b c).0 same)
            (deliver-IsSettled s b _ events s' hb refl h)
      | inr other ↦ elim k [
        | inl same ↦ cc ((==_iff b c).1 same, other)
        | inr settled ↦ deliver-keeps s b c _ events s' other h settled
      ]
    ]

    now-IsSettled :
        (s : Session) (b : BucketId) (bs : List BucketId) (c : BucketId) (events : List Event)
        (s1 : Session)
        → Fits b
        → (poll_bucket env K log_at io s b events).0 ≡ ok s1
        → Has c (b ∷ bs) ⊎ IsSettled log_at s c
        → Has c bs ⊎ IsSettled log_at s1 c
    now-IsSettled s b bs c events s1 hb h (inl (inl same)) =
        inr (poll_bucket-IsSettled s b c events s1 hb h (inl same))
    now-IsSettled s b bs c events s1 hb h (inl (inr later)) = inl later
    now-IsSettled s b bs c events s1 hb h (inr k) =
        inr (poll_bucket-IsSettled s b c events s1 hb h (inr k))

    pub poll_buckets-IsSettled :
        (bs : List BucketId) (s : Session) (events : List Event) (s' : Session) (c : BucketId)
        → All Fits bs
        → (poll_buckets env K log_at io bs s events).0 ≡ ok s'
        → Has c bs ⊎ IsSettled log_at s c
        → IsSettled log_at s' c
    unfolding poll_buckets
    poll_buckets-IsSettled [] s events s' c hb h (inl has) = absurd has
    poll_buckets-IsSettled [] s events s' c hb h (inr k) =
        subst (λ x. IsSettled log_at x c) (ok-injective h) k
    poll_buckets-IsSettled (b ∷ bs) s events s' c hb h k =
        let (s1, mid, polled, rest) =
          then_continued (poll_bucket env K log_at io s b events) _ s' h in
        poll_buckets-IsSettled bs s1 mid s' c hb.1 rest
          (now-IsSettled s b bs c events s1 hb.0 (ap (λ x. x.0) polled) k)
