-- ===== src/Gateway/Deltas/Seen.antt =====
-- crates/pes-gateway/src/connection.rs: the last LSN that a session has seen of a bucket.
use prometheus_entity_sync.Base.{
  text_eq, insert, get-insert, All, All-map_weaken, Result, ok, err, Option, none, some, List, [],
  ◌∷◌, ◌+◌, ◌%◌, ◌≤◌, ◌<◌, ltb, ltb→lt, ltb→le, false, Bool-cases, ok-injective, ◌==◌, ◌≡◌, refl,
  sym, ap, ◌∙◌, inl, inr, arith,
}
use mathlib.Core.Path.{subst}
use prometheus_entity_sync.Core.{BucketId, BucketOp, PgLsn, SyncError, u64_max}
use prometheus_entity_sync.Oplog.Store.{u64_mod}
use prometheus_entity_sync.Gateway.Effects.{Event, Conn, pure, continue_conn}
use prometheus_entity_sync.Gateway.Connection.{Session}
use prometheus_entity_sync.Gateway.Deltas.{scan_from, or_zero, max_lsn}

pub max_lsn-le : (o : BucketOp) (ops : List BucketOp) → All (λ p. p.lsn ≤ max_lsn o ops) (o ∷ ops)
unfolding max_lsn
max_lsn-le o [] = (omega arith, tt)
max_lsn-le o (p ∷ ops) =
    let ih = max_lsn-le p ops in
    elim (Bool-cases (ltb o.lsn (max_lsn p ops))) [
      | inl less ↦
          let h = ltb→lt o.lsn (max_lsn p ops) less in
          let same : max_lsn o (p ∷ ops) ≡ max_lsn p ops = rw less refl in
          subst (λ m. All (λ q. q.lsn ≤ m) (o ∷ p ∷ ops)) (sym same) (omega (arith, h), ih)
      | inr more ↦
          let h = ltb→le o.lsn (max_lsn p ops) more in
          let same : max_lsn o (p ∷ ops) ≡ o.lsn = rw more refl in
          subst (λ m. All (λ q. q.lsn ≤ m) (o ∷ p ∷ ops)) (sym same)
            (
              omega arith,
              All-map_weaken (λ (q : BucketOp). q.lsn ≤ max_lsn p ops)
                  (λ (q : BucketOp). q.lsn ≤ o.lsn) (λ q k. omega (arith, k, h)) (p ∷ ops) ih,
            )
    ]

pub max_lsn-Has :
    (P : PgLsn → Type 0) (o : BucketOp) (ops : List BucketOp)
    → All (λ p. P p.lsn) (o ∷ ops)
    → P (max_lsn o ops)
unfolding max_lsn
max_lsn-Has P o [] h = h.0
max_lsn-Has P o (p ∷ ops) h = elim (Bool-cases (ltb o.lsn (max_lsn p ops))) [
  | inl less ↦ rw less (max_lsn-Has P p ops h.1)
  | inr more ↦ rw more h.0
]

pub scan_from-le : (o : Option PgLsn) → or_zero o ≤ u64_max
scan_from-le none = omega arith
scan_from-le (some l) = omega arith

pub next_lsn : (l : PgLsn) → l < u64_max → (l + 1) % u64_mod ≡ l + 1
next_lsn l h = omega arith

-- A message is sent and then the session returned.
pub sent_then :
    (r : Result SyncError (Unit {0})) (events : List Event) (s1 s' : Session)
    → (continue_conn (r, events) (λ _. pure s1)).0 ≡ ok s'
    → s1 ≡ s'
sent_then (ok u) events s1 s' h = ok-injective h
sent_then (err e) events s1 s' h = cc

pub then_continued :
    (x : Result SyncError Session × List Event) (f : Session → Conn Session) (s' : Session)
    → (continue_conn x f).0 ≡ ok s'
    → (s1 : Session) × (mid : List Event) × (x ≡ (ok s1, mid)) × ((f s1 mid).0 ≡ ok s')
then_continued (ok s1, mid) f s' h = (s1, mid, refl, h)
then_continued (err e, mid) f s' h = cc

abbrev pub seen_after : Session → BucketId → PgLsn → Session
seen_after s b top = record s { last_seen_lsn = insert s.last_seen_lsn b top }

pub seen_after-other :
    (s : Session) (b c : BucketId) (top : PgLsn)
    → (b == c) ≡ false
    → scan_from (seen_after s b top) c ≡ scan_from s c
seen_after-other s b c top other = ap or_zero (get-insert s.last_seen_lsn b top c ∙ (rw other refl))
