-- ===== src/Gateway/Feed/Invariant.antt =====
-- crates/pes-gateway/src/connection.rs with crates/pes-oplog/src/store.rs: each op once, in order.
use prometheus_entity_sync.Base.{
  text_eq, Map, get, get-insert_self, keys, All, All-map_weaken, Has, some, List, [], ◌∷◌, ◌++◌,
  ◌+◌, ◌≤◌, ◌<◌, Bool-cases, ◌==◌, ==_iff, false, ◌≡◌, sym, ap, ◌∙◌, inl, inr, arith,
}
use mathlib.Core.Path.{subst}
use mathlib.Core.List.{append-nil}
use prometheus_entity_sync.Core.{BucketAssignment, BucketId, BucketOp, PgLsn, u64_max}
use prometheus_entity_sync.Oplog.Redb.{Backend}
use prometheus_entity_sync.Oplog.Store.{Faults}
use prometheus_entity_sync.Oplog.Store.View.{Fits, IsSound}
use prometheus_entity_sync.Oplog.Store.Scan.{IsAscendingLsn}
use prometheus_entity_sync.Protocol.{delta}
use prometheus_entity_sync.Gateway.Effects.{Env, sent}
use prometheus_entity_sync.Gateway.Connection.{Session}
use prometheus_entity_sync.Gateway.Deltas.{
  scan_from, or_zero, max_lsn, wire_bucket_id, or_internal, for_wire,
}
use prometheus_entity_sync.Gateway.Deltas.Settled.{IsSettled, scan-IsSettled}
use prometheus_entity_sync.Gateway.Deltas.Seen.{max_lsn-Has, next_lsn, seen_after, seen_after-other}
use prometheus_entity_sync.Gateway.Deltas.Wire.{keys-get}
use prometheus_entity_sync.Gateway.Feed.{Feed, ops_under}
use prometheus_entity_sync.Gateway.Feed.Frames.{
  ops_under-snoc, ops_of-own, ops_of-other, for_wire-append,
}
use prometheus_entity_sync.Gateway.Feed.Pending.{StandsAt, IsPending, IsPending-unique}

-- No other bucket of the session goes by the same name.
abbrev pub IsOwnName : Map BucketId BucketAssignment → BucketId → BucketAssignment → Type 0
IsOwnName authorized b a =
    (get authorized b ≡ some a)
    × ((c : BucketId) (x : BucketAssignment)
        → get authorized c ≡ some x
        → x.rule_id ≡ a.rule_id
        → c ≡ b)

module _ (K : Backend) (env : Env) (b : BucketId) (a : BucketAssignment)
    (authorized : Map BucketId BucketAssignment) (hb : Fits b) (named : IsOwnName authorized b a)
    (first : PgLsn) where
  -- What was accepted is what the client has, and then what waits for the next scan.
  pub record IsFed (accepted : List BucketOp) (f : Feed K) : Type 0 where
    pub sound : IsSound K f.log
    pub buckets : f.session.authorized_buckets ≡ authorized
    pub ascending : IsAscendingLsn accepted
    pub seen : List BucketOp
    pub pending : List BucketOp
    pub split : accepted ≡ seen ++ pending
    pub delivered : ops_under a.rule_id f.events ≡ for_wire a.rule_id seen
    pub waiting : IsPending K b f.log (scan_from f.session b) pending
    pub frontier :
        (l : PgLsn) → first ≤ l → All (λ o. o.lsn < l) accepted → scan_from f.session b ≤ l

  -- The frame for a bucket of the session, and what it means for the bucket `b`.
  pub wire-own : (s : Session) → s.authorized_buckets ≡ authorized → wire_bucket_id s b ≡ a.rule_id
  wire-own s same = ap (λ m. or_internal b (get m b)) same ∙ ap (or_internal b) named.0

  pub wire-other :
      (s : Session) (c : BucketId)
      → s.authorized_buckets ≡ authorized
      → Has c (keys authorized)
      → (c == b) ≡ false
      → (wire_bucket_id s c == a.rule_id) ≡ false
  wire-other s c same has other =
      let (x, found) = keys-get authorized c has in
      let wire : wire_bucket_id s c ≡ x.rule_id =
        ap (λ m. or_internal c (get m c)) same ∙ ap (or_internal c) found in
      elim (Bool-cases (wire_bucket_id s c == a.rule_id)) [
        | inl e ↦
            let at : x.rule_id ≡ a.rule_id =
              sym wire ∙ (==_iff (wire_bucket_id s c) a.rule_id).0 e in
            cc ((==_iff c b).1 (named.1 c x found at), other)
        | inr e ↦ e
      ]

  pub All-after : (P : BucketOp → Type 0) (xs ys : List BucketOp) → All P (xs ++ ys) → All P ys
  All-after P [] ys h = h
  All-after P (x ∷ xs) ys h = All-after P xs ys h.1

  -- The frame with everything that waits.
  abbrev pub sent_all : Feed K → BucketOp → List BucketOp → Feed K
  sent_all f o os = record f {
    session = seen_after f.session b (max_lsn o os);
    events = f.events ++ sent (delta a.rule_id (for_wire a.rule_id (o ∷ os)) (max_lsn o os)) ∷ [];
  }

  sent_all-IsPending :
      (io : Faults) (f : Feed K) (o : BucketOp) (os : List BucketOp)
      → IsSound K f.log
      → IsPending K b f.log (scan_from f.session b) (o ∷ os)
      → IsPending K b f.log (scan_from (sent_all f o os).session b) []
  sent_all-IsPending io f o os sound h =
      let settled : IsSettled K (λ c. f.log) (sent_all f o os).session b =
        scan-IsSettled K env (λ c. f.log) io (λ c. sound) f.session b o os (h.each, h.every) in
      record {
        ascending = tt;
        each = tt;
        every = λ l st low high found. absurd (settled l st low high found);
      }

  sent_all-frontier :
      (f : Feed K) (o : BucketOp) (os : List BucketOp) (l : PgLsn)
      → All (StandsAt K b f.log (scan_from f.session b)) (o ∷ os)
      → All (λ p. p.lsn < l) (o ∷ os)
      → scan_from (sent_all f o os).session b ≤ l
  sent_all-frontier f o os l each h =
      let below : max_lsn o os < u64_max =
        max_lsn-Has (λ m. m < u64_max) o os
          (All-map_weaken (StandsAt K b f.log (scan_from f.session b))
            (λ (q : BucketOp). q.lsn < u64_max) (λ q k. k.1) (o ∷ os) each) in
      let less : max_lsn o os < l = max_lsn-Has (λ m. m < l) o os h in
      let next : scan_from (sent_all f o os).session b ≡ max_lsn o os + 1 =
        ap or_zero (get-insert_self f.session.last_seen_lsn b (max_lsn o os))
        ∙ next_lsn (max_lsn o os) below in
      omega (arith, next, less)

  pub sent_all-IsFed :
      (io : Faults) (accepted : List BucketOp) (f : Feed K) (o : BucketOp) (os : List BucketOp)
      (fed : IsFed accepted f)
      → IsPending K b f.log (scan_from f.session b) (o ∷ os)
      → IsFed accepted (sent_all f o os)
  sent_all-IsFed io accepted f o os fed scanned =
      let same : fed.pending ≡ o ∷ os =
        IsPending-unique K b f.log (scan_from f.session b) fed.pending (o ∷ os) fed.waiting
          scanned in
      let split : accepted ≡ fed.seen ++ (o ∷ os) = fed.split ∙ ap (λ l. fed.seen ++ l) same in
      record {
        sound = fed.sound;
        buckets = fed.buckets;
        ascending = fed.ascending;
        seen = fed.seen ++ (o ∷ os);
        pending = [];
        split = split ∙ sym (append-nil (fed.seen ++ (o ∷ os)));
        delivered =
            ops_under-snoc a.rule_id f.events _ _ (ops_of-own a.rule_id _ _)
            ∙ ap (λ l. l ++ for_wire a.rule_id (o ∷ os)) fed.delivered
            ∙ sym (for_wire-append a.rule_id fed.seen (o ∷ os));
        waiting = sent_all-IsPending io f o os fed.sound scanned;
        frontier = λ l low h.
            sent_all-frontier f o os l scanned.each
              (All-after _ fed.seen (o ∷ os) (subst (All _) split h));
      }

  -- A frame for another bucket.
  pub sent_other-IsFed :
      (accepted : List BucketOp) (f : Feed K) (c wire : BucketId) (os : List BucketOp) (top : PgLsn)
      → (c == b) ≡ false
      → (wire == a.rule_id) ≡ false
      → (fed : IsFed accepted f)
      → IsFed accepted (record f {
        session = seen_after f.session c top;
        events = f.events ++ sent (delta wire os top) ∷ [];
      })
  sent_other-IsFed accepted f c wire os top other unlike fed =
      let from = seen_after-other f.session c b top other in
      record {
        sound = fed.sound;
        buckets = fed.buckets;
        ascending = fed.ascending;
        seen = fed.seen;
        pending = fed.pending;
        split = fed.split;
        delivered =
            ops_under-snoc a.rule_id f.events _ _ (ops_of-other a.rule_id wire os top unlike)
            ∙ append-nil (ops_under a.rule_id f.events)
            ∙ fed.delivered;
        waiting = subst (λ x. IsPending K b f.log x fed.pending) (sym from) fed.waiting;
        frontier = λ l low h. subst (λ x. x ≤ l) (sym from) (fed.frontier l low h);
      }
