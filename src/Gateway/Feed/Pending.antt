-- ===== src/Gateway/Feed/Pending.antt =====
-- crates/pes-oplog/src/store.rs: the ops that wait in a bucket from an LSN on, and what appends do to them.
use prometheus_entity_sync.Base.{
  ltb→lt, none, Option, ◌-◌, Has-snoc, Has-prefix, text_eq, nat_eq, All, All-Has, All-append,
  All-map_weaken, Has, ok, err, some, List, [], ◌∷◌, ◌++◌, ℕ, ◌≤◌, ◌<◌, Bool-cases, ok-injective,
  ◌==◌, ==_iff, ==_refl, if◌then◌else◌, false, ◌≡◌, refl, sym, ap, ◌∙◌, inl, inr, arith,
}
use mathlib.Core.Path.{subst}
use prometheus_entity_sync.Core.{BucketId, BucketOp, PgLsn, SyncError, u64_max}
use prometheus_entity_sync.Oplog.Redb.{Backend, StoredOp}
use prometheus_entity_sync.Oplog.Store.{BucketOpLog, Faults, append, drain_since, compact}
use prometheus_entity_sync.Oplog.Store.View.{Fits, stored_at, IsSound}
use prometheus_entity_sync.Oplog.Store.Append.{append_atomic, stamped}
use prometheus_entity_sync.Oplog.Store.Compact.{retained, compact_exact}
use prometheus_entity_sync.Oplog.Store.Scan.{IsAscendingLsn}
use prometheus_entity_sync.Oplog.Store.Drain.{drain_since_exact}
use prometheus_entity_sync.Gateway.Feed.Ascending.{IsAscendingLsn-unique, IsAscendingLsn-snoc}

module _ (K : Backend) (b : BucketId) where
  abbrev pub StandsAt : BucketOpLog K → PgLsn → BucketOp → Type 0
  StandsAt log from o =
      (from ≤ o.lsn)
      × (o.lsn < u64_max)
      × (st : StoredOp) × (stored_at K log b o.lsn ≡ some st)
      × (st.op ≡ o)

  -- By LSN, what is stored in the bucket from `from` on, and all of it.
  pub record IsPending (log : BucketOpLog K) (from : PgLsn) (os : List BucketOp) : Type 0 where
    pub ascending : IsAscendingLsn os
    pub each : All (StandsAt log from) os
    pub every :
        (l : PgLsn) (st : StoredOp)
        → from ≤ l
        → l < u64_max
        → stored_at K log b l ≡ some st
        → Has st.op os

  pub scan-IsPending :
      (io : Faults) (log : BucketOpLog K) (from : PgLsn) (os : List BucketOp)
      → IsSound K log
      → Fits b
      → from ≤ u64_max
      → drain_since K io log b from ≡ ok os
      → IsPending log from os
  scan-IsPending io log from os sound hb hf h =
      elim (drain_since_exact K io log b from sound hb hf) [
        | inl (e, failed) ↦ cc
        | inr (os', done, ascending, each, every) ↦
            subst (IsPending log from) (ok-injective (sym done ∙ h))
              (record { ascending = ascending; each = each; every = every })
      ]

  pending-Has :
      (log : BucketOpLog K) (from : PgLsn) (xs ys : List BucketOp) (o : BucketOp)
      → IsPending log from xs
      → IsPending log from ys
      → Has o xs
      → Has o ys
  pending-Has log from xs ys o hx hy h =
      let (low, high, st, found, same) = All-Has (StandsAt log from) o xs hx.each h in
      subst (λ p. Has p ys) same (hy.every o.lsn st low high found)

  pub IsPending-unique :
      (log : BucketOpLog K) (from : PgLsn) (xs ys : List BucketOp)
      → IsPending log from xs
      → IsPending log from ys
      → xs ≡ ys
  IsPending-unique log from xs ys hx hy =
      IsAscendingLsn-unique xs ys hx.ascending hy.ascending
        (λ o. pending-Has log from xs ys o hx hy) (λ o. pending-Has log from ys xs o hy hx)

  -- A log in which the bucket stands as before.
  pub IsPending-kept :
      (log log' : BucketOpLog K) (from : PgLsn) (os : List BucketOp)
      → ((l : PgLsn) → from ≤ l → l < u64_max → stored_at K log' b l ≡ stored_at K log b l)
      → IsPending log from os
      → IsPending log' from os
  IsPending-kept log log' from os same h = record {
    ascending = h.ascending;
    each =
        All-map_weaken (StandsAt log from) (StandsAt log' from)
          (λ o (low, high, st, found, at). (low, high, st, same o.lsn low high ∙ found, at)) os
          h.each;
    every = λ l st low high found. h.every l st low high (sym (same l low high) ∙ found);
  }

  -- What an accepted append makes of the bucket.
  abbrev AppendedAt : BucketOpLog K → BucketOpLog K → ℕ → BucketOp → Type 0
  AppendedAt log log' now op =
      (m : PgLsn)
      → m ≤ u64_max
      → stored_at K log' b m
        ≡ (if op.lsn == m then some (stamped K now op) else stored_at K log b m)

  snoc-each :
      (log log' : BucketOpLog K) (from : PgLsn) (now : ℕ) (op : BucketOp) (os : List BucketOp)
      → AppendedAt log log' now op
      → All (λ o. o.lsn < op.lsn) os
      → All (StandsAt log from) os
      → All (StandsAt log' from) os
  snoc-each log log' from now op [] at less h = tt
  snoc-each log log' from now op (o ∷ os) at less ((low, high, st, found, same), rest) =
      let kept : stored_at K log' b o.lsn ≡ stored_at K log b o.lsn =
        at o.lsn (omega (arith, high)) ∙ ground (arith, ==_iff op.lsn o.lsn, less.0) in
      ((low, high, st, kept ∙ found, same), snoc-each log log' from now op os at less.1 rest)

  snoc-every :
      (log log' : BucketOpLog K) (from : PgLsn) (now : ℕ) (op : BucketOp) (os : List BucketOp)
      → AppendedAt log log' now op
      → IsPending log from os
      → (l : PgLsn) (st : StoredOp) → from ≤ l
      → l < u64_max
      → stored_at K log' b l ≡ some st
      → Has st.op (os ++ op ∷ [])
  snoc-every log log' from now op os at h l st low high found = elim (Bool-cases (op.lsn == l)) [
    | inl same ↦
        let e : some (stamped K now op) ≡ some st =
          sym (at l (omega (arith, high)) ∙ rw same refl) ∙ found in
        let f : op ≡ st.op = cc in subst (λ p. Has p (os ++ op ∷ [])) f (Has-snoc op os)
    | inr other ↦
        Has-prefix st.op op os
          (h.every l st low high (sym (at l (omega (arith, high)) ∙ rw other refl) ∙ found))
  ]

  -- An accepted append of a newer op puts it at the end.
  pub IsPending-accepted :
      (io : Faults) (now : ℕ) (log : BucketOpLog K) (op : BucketOp) (l : PgLsn) (from : PgLsn)
      (os : List BucketOp)
      → Fits b
      → from ≤ op.lsn
      → op.lsn < u64_max
      → All (λ o. o.lsn < op.lsn) os
      → (append K io now log b op.lsn op).0 ≡ ok l
      → IsPending log from os
      → IsPending (append K io now log b op.lsn op).1 from (os ++ op ∷ [])
  IsPending-accepted io now log op l from os hb low high newer accepted h =
      let log' = (append K io now log b op.lsn op).1 in
      elim (append_atomic K io now log b op.lsn op hb (omega (arith, high))) [
        | inl (e, failed) ↦ cc (accepted, ap (λ x. x.0) failed)
        | inr (p, written, done, stored, sums) ↦
            let at : AppendedAt log log' now op =
              λ m hm. stored b m hb hm ∙ (rw (==_refl b) refl) in
            let here : StandsAt log' from op = (
              low,
              high,
              stamped K now op,
              at op.lsn (omega (arith, high)) ∙ (rw (==_refl op.lsn) refl),
              refl,
            ) in
            record {
              ascending = IsAscendingLsn-snoc os op h.ascending newer;
              each =
                  All-append (StandsAt log' from) os (op ∷ [])
                    (snoc-each log log' from now op os at newer h.each) (here, tt);
              every = snoc-every log log' from now op os at h;
            }
      ]

  -- An append that fails, or to another bucket, leaves the bucket as it is.
  pub stored-refused :
      (io : Faults) (now : ℕ) (log : BucketOpLog K) (c : BucketId) (op : BucketOp) (e : SyncError)
      → Fits c
      → op.lsn ≤ u64_max
      → (append K io now log c op.lsn op).0 ≡ err e
      → (append K io now log c op.lsn op).1 ≡ log
  stored-refused io now log c op e hc hl h = elim (append_atomic K io now log c op.lsn op hc hl) [
    | inl (e', failed) ↦ ap (λ x. x.1) failed
    | inr (p, written, done, stored, sums) ↦ cc (h, done)
  ]

  pub stored-elsewhere :
      (io : Faults) (now : ℕ) (log : BucketOpLog K) (c : BucketId) (op : BucketOp)
      → Fits b
      → Fits c
      → op.lsn ≤ u64_max
      → (c == b) ≡ false
      → (l : PgLsn) → l ≤ u64_max
      → stored_at K (append K io now log c op.lsn op).1 b l ≡ stored_at K log b l
  stored-elsewhere io now log c op hb hc hl other l hm =
      elim (append_atomic K io now log c op.lsn op hc hl) [
        | inl (e, failed) ↦ ap (λ x. stored_at K x.1 b l) failed
        | inr (p, written, done, stored, sums) ↦ stored b l hb (omega (arith, hm)) ∙ (rw other refl)
      ]

  retained-young :
      (cutoff : ℕ) (o : Option StoredOp)
      → ((st : StoredOp) → o ≡ some st → cutoff ≤ st.appended_at_unix_secs)
      → retained cutoff o ≡ o
  retained-young cutoff none young = refl
  retained-young cutoff (some st) young =
      let h = young st refl in ground (arith, h, ltb→lt st.appended_at_unix_secs cutoff)

  -- A compaction that finds nothing old from `from` on leaves it as it is.
  pub stored-compacted :
      (io : Faults) (now : ℕ) (log : BucketOpLog K) (l : PgLsn)
      → IsSound K log
      → ((st : StoredOp)
          → stored_at K log b l ≡ some st
          → now - log.compaction_ttl ≤ st.appended_at_unix_secs)
      → stored_at K (compact K io now log).1 b l ≡ stored_at K log b l
  stored-compacted io now log l sound young = elim (compact_exact K io now log sound) [
    | inl (e, failed) ↦ ap (λ x. stored_at K x.1 b l) failed
    | inr (count, stored, sums) ↦ stored b l ∙ retained-young (now - log.compaction_ttl) _ young
  ]
