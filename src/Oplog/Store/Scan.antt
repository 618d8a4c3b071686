-- ===== src/Oplog/Store/Scan.antt =====
-- crates/pes-oplog/src/store.rs: the entries that the range scan of `drain_since` meets, and their ops.
use prometheus_entity_sync.Base.{
  none, Text, text_eq, text_lt, Result, ok, err, some, ◌≡◌, refl, sym, ap, ◌∙◌, ℕ, ◌≤◌, ◌<◌, inl,
  inr, Bool, true, false, not, arith, Result-cases, List, [], ◌∷◌, All, All-keep_if, keep_if-All,
  Has, Has-entry, Has-keep_if, keep_if, ltb, ltb→le, ltb→lt, and_split, All-map_weaken,
  Option-cases,
}
use mathlib.Core.Path.{subst}
use prometheus_entity_sync.Core.{BucketOp, BucketId, PgLsn, u64_max}
use prometheus_entity_sync.Oplog.Key.{
  make_key, make_range_start, make_bucket_range_end, lsn_from_key,
}
use prometheus_entity_sync.Oplog.Key.Order.{bucket_of_key, text_lt-make_key, lsn_from_key-make_key}
use prometheus_entity_sync.Oplog.Redb.{Backend, StoredOp, in_range, IsAscending, get-IsAscending}
use prometheus_entity_sync.Oplog.Store.{BucketOpLog, Faults, Call, read_ops}
use prometheus_entity_sync.Oplog.Store.Outcome.{Outcome, attempt-Outcome, bind-Outcome}
use prometheus_entity_sync.Oplog.Store.View.{Fits, stored_at, IsSound}

-- By LSN, and no LSN twice.
abbrev pub IsAscendingLsn : List BucketOp → Type 0
IsAscendingLsn [] = Unit
IsAscendingLsn (o ∷ os) = All (λ p. o.lsn < p.lsn) os × IsAscendingLsn os

not-true : (b : Bool) → not b ≡ true → b ≡ false
not-true true h = cc
not-true false h = refl

lt→le : (l : ℕ) → l < u64_max → l ≤ u64_max
lt→le l h = omega arith

module _ (K : Backend) where
  open K use {ops}

  abbrev keep_op : Result Text StoredOp → List BucketOp → List BucketOp
  keep_op (ok s) os = s.op ∷ os
  keep_op (err e) os = os

  pub decoded : List (Text × Text) → List BucketOp
  decoded [] = []
  decoded ((k, v) ∷ es) = keep_op (K.codec.from_slice v) (decoded es)

  module _ (log : BucketOpLog K) (b : BucketId) (from : PgLsn) where
    pub record InScan (e : Text × Text) : Type 0 where
      pub stored : StoredOp
      pub key : e.0 ≡ make_key b stored.op.lsn
      pub decodes : K.codec.from_slice e.1 ≡ ok stored
      pub above : from ≤ stored.op.lsn
      pub below : stored.op.lsn < u64_max
      pub found : ops.get_value log.bucket_ops e.0 ≡ some e.1

    abbrev pub scan : List (Text × Text)
    scan = ops.range log.bucket_ops (make_range_start b from) (make_bucket_range_end b)

    abbrev pub tests : Text × Text → Bool
    tests = in_range (make_range_start b from) (make_bucket_range_end b)

    entry-InScan :
        (k v : Text)
        → IsSound K log
        → Fits b
        → from ≤ u64_max
        → tests (k, v) ≡ true
        → ops.get_value log.bucket_ops k ≡ some v
        → InScan (k, v)
    unfolding make_range_start make_bucket_range_end
    entry-InScan k v sound hb hf t found =
        let en = sound.entry k v found in
        let lsn = en.stored.op.lsn in
        let both = and_split _ _ t in
        let lo : text_lt k (make_key b from) ≡ false = not-true _ both.0 in
        let hi : text_lt k (make_key b u64_max) ≡ true = both.1 in
        let lo' : text_lt (make_key en.bucket lsn) (make_key b from) ≡ false = rw en.key at lo in
        let hi' : text_lt (make_key en.bucket lsn) (make_key b u64_max) ≡ true = rw en.key at hi in
        let same : en.bucket ≡ b = bucket_of_key b en.bucket from lsn hb en.bucket_fits lo' hi' in
        let key : k ≡ make_key b lsn = en.key ∙ ap (λ c. make_key c lsn) same in
        let after : ltb lsn from ≡ false =
          sym (text_lt-make_key b lsn from en.lsn_fits hf) ∙ (rw key at lo) in
        let before : ltb lsn u64_max ≡ true =
          sym (text_lt-make_key b lsn u64_max en.lsn_fits (omega arith)) ∙ (rw key at hi) in
        record {
          stored = en.stored;
          key = key;
          decodes = en.decodes;
          above = ltb→le lsn from after;
          below = ltb→lt lsn u64_max before;
          found = found;
        }

    InScan-All :
        (es : List (Text × Text))
        → IsSound K log
        → Fits b
        → from ≤ u64_max
        → All (λ e. tests e ≡ true) es
        → All (λ e. ops.get_value log.bucket_ops e.0 ≡ some e.1) es
        → All InScan es
    InScan-All [] sound hb hf t g = tt
    InScan-All ((k, v) ∷ es) sound hb hf t g =
        (entry-InScan k v sound hb hf t.0 g.0, InScan-All es sound hb hf t.1 g.1)

    abbrev pub IsOp : BucketOp → Type 0
    IsOp o =
        (from ≤ o.lsn)
        × (o.lsn < u64_max)
        × (s : StoredOp) × (stored_at K log b o.lsn ≡ some s)
        × (s.op ≡ o)

    pub decoded-All : (es : List (Text × Text)) → All InScan es → All IsOp (decoded es)
    unfolding decoded
    decoded-All [] h = tt
    decoded-All ((k, v) ∷ es) h =
        let e = h.0 in
        rw e.decodes (
          (e.above, e.below, e.stored, rw (← e.key, e.found) (rw e.decodes), refl),
          decoded-All es h.1,
        )

    pub read_ops-Outcome :
        (io : Faults) (es : List (Text × Text))
        → All InScan es
        → Outcome (read_ops K io es) (decoded es)
    unfolding read_ops decoded
    read_ops-Outcome io [] h = inr refl
    read_ops-Outcome io ((k, v) ∷ es) h =
        let e = h.0 in
        let lsn = e.stored.op.lsn in
        let named : lsn_from_key k ≡ some lsn =
          ap lsn_from_key e.key ∙ lsn_from_key-make_key b lsn (lt→le lsn e.below) in
        attempt-Outcome (io (Call.read_entry k)) _ _ (
          rw (named, e.decodes)
            (bind-Outcome (read_ops K io es) (decoded es) _ _ (read_ops-Outcome io es h.1)
              (inr refl)))

    -- Without a fault, the scan is read to its end.
    pub read_ops-ok :
        (io : Faults) (es : List (Text × Text))
        → ((c : Call) → io c ≡ none)
        → All InScan es
        → read_ops K io es ≡ ok (decoded es)
    unfolding read_ops decoded
    read_ops-ok io [] good h = refl
    read_ops-ok io ((k, v) ∷ es) good h =
        let e = h.0 in
        let lsn = e.stored.op.lsn in
        let named : lsn_from_key k ≡ some lsn =
          ap lsn_from_key e.key ∙ lsn_from_key-make_key b lsn (lt→le lsn e.below) in
        rw (good (Call.read_entry k), named, e.decodes, read_ops-ok io es good h.1) refl

    decoded_above :
        (l : PgLsn) (es : List (Text × Text))
        → All InScan es
        → l ≤ u64_max
        → All (λ e. text_lt (make_key b l) e.0 ≡ true) es
        → All (λ p. l < p.lsn) (decoded es)
    unfolding decoded
    decoded_above l [] h hl g = tt
    decoded_above l ((k, v) ∷ es) h hl g =
        let e = h.0 in
        let lsn = e.stored.op.lsn in
        let above : text_lt (make_key b l) (make_key b lsn) ≡ true = rw e.key at g.0 in
        rw e.decodes (
          ltb→lt l lsn (sym (text_lt-make_key b l lsn hl (lt→le lsn e.below)) ∙ above),
          decoded_above l es h.1 hl g.1,
        )

    pub decoded-IsAscendingLsn :
        (es : List (Text × Text)) → All InScan es → IsAscending es → IsAscendingLsn (decoded es)
    unfolding decoded
    decoded-IsAscendingLsn [] h g = tt
    decoded-IsAscendingLsn ((k, v) ∷ es) h g =
        let e = h.0 in
        let lsn = e.stored.op.lsn in
        let above : All (λ x. text_lt (make_key b lsn) x.0 ≡ true) es =
          subst (λ j. All (λ x. text_lt j x.0 ≡ true) es) e.key g.0 in
        rw e.decodes
          (decoded_above lsn es h.1 (lt→le lsn e.below) above, decoded-IsAscendingLsn es h.1 g.1)

    Has-decoded :
        (k v : Text) (s : StoredOp) (es : List (Text × Text))
        → K.codec.from_slice v ≡ ok s
        → Has (k, v) es
        → Has s.op (decoded es)
    unfolding decoded
    Has-decoded k v s [] d h = absurd h
    Has-decoded k v s ((j, w) ∷ es) d (inl e) =
        rw (ap (λ x. K.codec.from_slice x.1) e ∙ d) (inl refl)
    Has-decoded k v s ((j, w) ∷ es) d (inr h) = elim (Result-cases (K.codec.from_slice w)) [
      | inl (r, e) ↦ rw e (inr (Has-decoded k v s es d h))
      | inr (m, e) ↦ rw e (Has-decoded k v s es d h)
    ]

    pub stored-Has :
        (l : PgLsn) (s : StoredOp)
        → from ≤ l
        → l < u64_max
        → stored_at K log b l ≡ some s
        → Has s.op (decoded (keep_if tests (ops.iter log.bucket_ops)))
    unfolding make_range_start make_bucket_range_end
    stored-Has l s hf hl h = elim (Option-cases (ops.get_value log.bucket_ops (make_key b l))) [
      | inl missing ↦ cc (rw missing at h)
      | inr (v, found) ↦ elim (Result-cases (K.codec.from_slice v)) [
        | inr (m, bad) ↦ cc (rw (found, bad) at h)
        | inl (r, good) ↦
            let same : some r ≡ some s = rw (found, good) at h in
            let listed : Has (make_key b l, v) (ops.iter log.bucket_ops) =
              Has-entry _ _ v (ops.get-iter log.bucket_ops (make_key b l) ∙ found) in
            Has-decoded (make_key b l) v s _ (cc (good, same)) (
              Has-keep_if tests (make_key b l, v) _ listed
                (rw
                  (
                    text_lt-make_key b l from (lt→le l hl) (omega arith),
                    text_lt-make_key b l u64_max (lt→le l hl) (omega arith),
                  )
                  (ground arith)))
      ]
    ]

  -- What the range holds: entries of the bucket with an LSN in range.
  pub scanned_entries :
      (log : BucketOpLog K) (b : BucketId) (from : PgLsn)
      → IsSound K log
      → Fits b
      → from ≤ u64_max
      → (scan log b from ≡ keep_if (tests log b from) (ops.iter log.bucket_ops))
        × All (InScan log b from) (keep_if (tests log b from) (ops.iter log.bucket_ops))
  scanned_entries log b from sound hb hf =
      let found =
        All-map_weaken _ _ (λ e h. sym (ops.get-iter log.bucket_ops e.0) ∙ h) _
          (get-IsAscending (ops.iter log.bucket_ops) (ops.iter-IsAscending log.bucket_ops)) in
      (
        ops.range-eq-keep_if log.bucket_ops _ _,
        InScan-All log b from (keep_if (tests log b from) (ops.iter log.bucket_ops)) sound hb hf
            (keep_if-All (tests log b from) (ops.iter log.bucket_ops)) (All-keep_if _ _ _ found),
      )
