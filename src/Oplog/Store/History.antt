-- ===== src/Oplog/Store/History.antt =====
-- A log over its whole life: any sequence of appends and compactions, with any faults.
use prometheus_entity_sync.Base.{
  Text, text_eq, Result, ok, ◌≡◌, refl, ap, ◌∙◌, ℕ, ◌≤◌, inl, inr, ◌==◌, ==_iff, if◌then◌else◌,
  arith, List, [], ◌∷◌, All,
}
use prometheus_entity_sync.Core.{BucketId, BucketOp, PgLsn, SyncError, u64_max}
use prometheus_entity_sync.Oplog.Redb.{Backend}
use prometheus_entity_sync.Oplog.Store.{BucketOpLog, Faults, append, compact, fold_checksum}
use prometheus_entity_sync.Oplog.Store.View.{Fits, running_checksum, IsSound}
use prometheus_entity_sync.Oplog.Store.Append.{append-IsSound, append_atomic, stamped}
use prometheus_entity_sync.Oplog.Store.Compact.{compact_exact, compact-IsSound}

-- An append gives the op its own LSN, as the router does.
pub data Event : Type 0 where
  appends : Faults → ℕ → BucketId → BucketOp → Event
  compacts : Faults → ℕ → Event

-- What the callers see to: bucket ids and LSNs in range.
abbrev pub IsCall : Event → Type 0
IsCall (appends io now b op) = Fits b × (op.lsn ≤ u64_max)
IsCall (compacts io now) = Unit

-- A reference for the checksum: the payloads that went in, oldest first.
abbrev pub fold_all : ℕ → List Text → ℕ
fold_all n [] = n
fold_all n (p ∷ ps) = fold_all (fold_checksum n p) ps

module _ (K : Backend) where
  pub step : BucketOpLog K → Event → BucketOpLog K
  step log (appends io now b op) = (append K io now log b op.lsn op).1
  step log (compacts io now) = (compact K io now log).1

  pub run : BucketOpLog K → List Event → BucketOpLog K
  run log [] = log
  run log (e ∷ es) = run (step log e) es

  abbrev if_accepted : Result SyncError PgLsn → Result Text Text → List Text → List Text
  if_accepted (ok l) (ok p) ps = p ∷ ps
  if_accepted _ _ ps = ps

  -- The payloads of the appends to `b` that the log accepted.
  pub accepted : BucketOpLog K → BucketId → List Event → List Text
  accepted log b [] = []
  accepted log b (appends io now c op ∷ es) =
      let rest = accepted (step log (appends io now c op)) b es in
      if c == b
      then if_accepted (append K io now log c op.lsn op).0 (K.codec.to_vec (stamped K now op)) rest
      else rest
  accepted log b (compacts io now ∷ es) = accepted (step log (compacts io now)) b es

  step-IsSound :
      (log : BucketOpLog K) (e : Event) → IsCall e → IsSound K log → IsSound K (step log e)
  unfolding step
  step-IsSound log (appends io now b op) h sound = append-IsSound K io now log b op h.0 h.1 sound
  step-IsSound log (compacts io now) h sound = compact-IsSound K io now log sound

  -- From a sound log, every sequence of appends and compactions leads to a sound log, whatever faults
  -- they meet, if the appends are of ops with bucket ids and LSNs in range.
  pub run-IsSound :
      (log : BucketOpLog K) (es : List Event)
      → All IsCall es
      → IsSound K log
      → IsSound K (run log es)
  unfolding run
  run-IsSound log [] h sound = sound
  run-IsSound log (e ∷ es) h sound = run-IsSound (step log e) es h.1 (step-IsSound log e h.0 sound)

  compact-running_checksum :
      (io : Faults) (now : ℕ) (log : BucketOpLog K) (b : BucketId)
      → IsSound K log
      → running_checksum K (compact K io now log).1 b ≡ running_checksum K log b
  compact-running_checksum io now log b sound = elim (compact_exact K io now log sound) [
    | inl (e, failed) ↦ ap (λ r. running_checksum K r.1 b) failed
    | inr done ↦ done.2 b
  ]

  -- From a sound log, after any sequence of appends, with bucket ids and LSNs in range, and
  -- compactions, the running checksum of a bucket is the fold, from its first value, over the
  -- payloads of all its accepted appends, those that were compacted away included.
  pub checksum-history :
      (log : BucketOpLog K) (b : BucketId) (es : List Event)
      → All IsCall es
      → IsSound K log
      → running_checksum K (run log es) b ≡ fold_all (running_checksum K log b) (accepted log b es)
  unfolding run accepted
  checksum-history log b [] h sound = refl
  checksum-history log b (appends io now c op ∷ es) h sound =
      let e = appends io now c op in
      let ih = checksum-history (step log e) b es h.1 (step-IsSound log e h.0 sound) in
      ih ∙ elim (append_atomic K io now log c op.lsn op h.0.0 h.0.1) [
        | inl (er, failed) ↦ unfold step in rw failed (ground arith)
        | inr (p, written, done, _, sums) ↦
            unfold step in rw (done, written, sums b) (ground (arith, ==_iff c b))
      ]
  checksum-history log b (compacts io now ∷ es) h sound =
      let e = compacts io now in
      checksum-history (step log e) b es h.1 (step-IsSound log e h.0 sound)
      ∙ unfold step in
        ap (λ n. fold_all n (accepted (step log e) b es))
          (compact-running_checksum io now log b sound)
