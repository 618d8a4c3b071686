-- ===== src/Oplog/Store/Compact.antt =====
-- `compact`: removes exactly the ops appended before the cutoff, and counts them.
use prometheus_entity_sync.Base.{
  Text, text_eq, length, get, ok, err, Option, none, some, ◌≡◌, refl, sym, ap, ◌∙◌, ℕ, suc, ◌+◌,
  ◌-◌, ◌⊎◌, inl, inr, Bool, false, ◌||◌, ◌==◌, ==_iff, Bool-cases, if◌then◌else◌, arith,
  Result-cases, List, [], ◌∷◌, All, All-map_weaken, keep_if, ltb,
}
use mathlib.Core.List.{map}
use mathlib.Core.Path.{subst}
use prometheus_entity_sync.Core.{BucketId, PgLsn, SyncError}
use prometheus_entity_sync.Oplog.Key.{make_key}
use prometheus_entity_sync.Oplog.Redb.{
  Backend, StoredOp, OrderedTable, IsAscending, Above, get-IsAscending, get-Above,
}
use prometheus_entity_sync.Oplog.Store.{
  BucketOpLog, Faults, Call, compact, compact_result, compact_transaction, keys_to_remove,
  remove_keys, to_sync_error,
}
use prometheus_entity_sync.Oplog.Store.Outcome.{Outcome, attempt-Outcome, bind-Outcome}
use prometheus_entity_sync.Oplog.Store.View.{
  decode_value, stored_at, running_checksum, IsEntry, IsSound,
}

length-map {ℓ κ} :
    {A : Type ℓ} {B : Type κ} (xs : List A) (f : A → B) → length (map f xs) ≡ length xs
length-map [] f = refl
length-map (x ∷ xs) f = ap suc (length-map xs f)

-- `contains`
among : Text → List Text → Bool
among k [] = false
among k (j ∷ js) = j == k || among k js

-- What compaction leaves of a stored op.
abbrev pub retained : ℕ → Option StoredOp → Option StoredOp
retained cutoff none = none
retained cutoff (some s) = if ltb s.appended_at_unix_secs cutoff then none else some s

module _ (K : Backend) (cutoff : ℕ) where
  open K use {ops}

  abbrev pub is_old : Text × Text → Bool
  is_old e = elim (K.codec.from_slice e.1) [
    | ok s ↦ ltb s.appended_at_unix_secs cutoff
    | err m ↦ false
  ]

  abbrev old_keys : List (Text × Text) → List Text
  old_keys es = map (λ e. e.0) (keep_if is_old es)

  keys_to_remove-Outcome :
      (io : Faults) (es : List (Text × Text))
      → All (λ e. IsEntry K e.0 e.1) es
      → Outcome (keys_to_remove K io cutoff es) (old_keys es)
  unfolding keys_to_remove
  keys_to_remove-Outcome io [] h = inr refl
  keys_to_remove-Outcome io ((k, v) ∷ es) h = attempt-Outcome (io (Call.read_entry k)) _ _ (
      rw h.0.decodes (
        bind-Outcome (keys_to_remove K io cutoff es) (old_keys es) _ _
          (keys_to_remove-Outcome io es h.1) (inr (ground (arith, h.0.decodes)))))

  removed_all : OrderedTable.Table ops → List Text → OrderedTable.Table ops
  removed_all t [] = t
  removed_all t (k ∷ ks) = removed_all (ops.remove t k) ks

  remove_keys-Outcome :
      (io : Faults) (t : OrderedTable.Table ops) (n : ℕ) (ks : List Text)
      → Outcome (remove_keys K io t n ks) (n + length ks, removed_all t ks)
  unfolding remove_keys removed_all
  remove_keys-Outcome io t n [] = inr (ap (λ m. ok (m, t)) (omega arith))
  remove_keys-Outcome io t n (k ∷ ks) = attempt-Outcome (io (Call.remove_op k)) _ _ (
      subst
        (λ m.
          Outcome (remove_keys K io (ops.remove t k) (n + 1) ks)
            (m, removed_all (ops.remove t k) ks))
        (omega arith) (remove_keys-Outcome io (ops.remove t k) (n + 1) ks))

  get_value-removed_all :
      (t : OrderedTable.Table ops) (ks : List Text) (k : Text)
      → ops.get_value (removed_all t ks) k ≡ (if among k ks then none else ops.get_value t k)
  unfolding removed_all among
  get_value-removed_all t [] k = refl
  get_value-removed_all t (j ∷ ks) k =
      get_value-removed_all (ops.remove t j) ks k ∙ (rw (ops.get_value-remove t j k) (ground arith))

  abbrev old_value : Text → Option Text → Bool
  old_value k none = false
  old_value k (some v) = is_old (k, v)

  among_old :
      (k : Text) (es : List (Text × Text))
      → IsAscending es
      → among k (old_keys es) ≡ old_value k (get es k)
  unfolding among get
  among_old k [] h = refl
  among_old k ((j, v) ∷ es) h =
      let ih = among_old k es h.1 in
      elim (Bool-cases (j == k)) [
        | inl same ↦
            let gone : get es k ≡ none =
              get-Above k es (subst (λ x. Above x es) ((==_iff j k).0 same) h.0) in
            rw same (ground (arith, ih, gone, same))
        | inr other ↦ rw other (ground (arith, ih, other))
      ]

  retained_value :
      (k : Text) (o : Option Text)
      → decode_value K (if old_value k o then none else o) ≡ retained cutoff (decode_value K o)
  retained_value k none = refl
  retained_value k (some v) = elim (Result-cases (K.codec.from_slice v)) [
    | inl (s, e) ↦ rw e (ground (arith, e))
    | inr (m, e) ↦ rw e (ground (arith, e))
  ]

  -- The log after a compaction that commits.
  abbrev compacted : BucketOpLog K → BucketOpLog K
  compacted log = record log {
    bucket_ops = removed_all log.bucket_ops (old_keys (ops.iter log.bucket_ops));
  }

  entries_sound :
      (log : BucketOpLog K) → IsSound K log → All (λ e. IsEntry K e.0 e.1) (ops.iter log.bucket_ops)
  entries_sound log sound =
      All-map_weaken _ _ (λ e h. sound.entry e.0 e.1 (sym (ops.get-iter log.bucket_ops e.0) ∙ h)) _
        (get-IsAscending (ops.iter log.bucket_ops) (ops.iter-IsAscending log.bucket_ops))

  transaction-Outcome :
      (io : Faults) (log : BucketOpLog K)
      → IsSound K log
      → Outcome
          (compact_transaction K io cutoff log)
          (length (old_keys (ops.iter log.bucket_ops)), compacted log)
  unfolding compact_transaction
  transaction-Outcome io log sound = attempt-Outcome (io Call.spawn_blocking) _ _ (
      attempt-Outcome (io Call.begin_write) _ _ (
        attempt-Outcome (io Call.open_ops) _ _ (
          attempt-Outcome (io Call.iter_ops) _ _ (
            bind-Outcome _ _ _ _
              (keys_to_remove-Outcome io (ops.iter log.bucket_ops) (entries_sound log sound))
              (bind-Outcome _ _ _ _
                (remove_keys-Outcome io log.bucket_ops 0 (old_keys (ops.iter log.bucket_ops)))
                (attempt-Outcome (io Call.commit) _ _
                  (inr (ap (λ m. ok (m, compacted log)) (omega arith)))))))))

  stored_at-compacted :
      (log : BucketOpLog K) (b : BucketId) (l : PgLsn)
      → stored_at K (compacted log) b l ≡ retained cutoff (stored_at K log b l)
  stored_at-compacted log b l =
      let es = ops.iter log.bucket_ops in
      let k = make_key b l in
      let old : among k (old_keys es) ≡ old_value k (ops.get_value log.bucket_ops k) =
        among_old k es (ops.iter-IsAscending log.bucket_ops)
        ∙ ap (old_value k) (ops.get-iter log.bucket_ops k) in
      rw (get_value-removed_all log.bucket_ops (old_keys es) k, old)
        (retained_value k (ops.get_value log.bucket_ops k))

module _ (K : Backend) where
  open K use {ops}

  -- `compact` fails and changes nothing, or removes exactly the ops appended before `now - ttl`, in
  -- every bucket, returns how many entries those were, and leaves every running checksum.
  pub compact_exact :
      (io : Faults) (now : ℕ) (log : BucketOpLog K)
      → IsSound K log
      → ((e : SyncError) × (compact K io now log ≡ (err e, log)))
        ⊎ (((compact K io now log).0
              ≡ ok (
                  length (keep_if (is_old K (now - log.compaction_ttl)) (ops.iter log.bucket_ops))))
            × ((b : BucketId) (l : PgLsn)
                → stored_at K (compact K io now log).1 b l
                  ≡ retained (now - log.compaction_ttl) (stored_at K log b l))
            × ((b : BucketId)
                → running_checksum K (compact K io now log).1 b ≡ running_checksum K log b))
  unfolding compact compact_result
  compact_exact io now log sound =
      let cutoff = now - log.compaction_ttl in
      elim (transaction-Outcome K cutoff io log sound) [
        | inl (e, failed) ↦ inl (to_sync_error e, rw (failed, compact_result))
        | inr done ↦
            rw (done, compact_result)
              (inr (
                ap ok (length-map (keep_if (is_old K cutoff) (ops.iter log.bucket_ops)) (λ e. e.0)),
                stored_at-compacted K cutoff log,
                λ b. refl,
              ))
      ]

  -- A sound log stays sound.
  pub compact-IsSound :
      (io : Faults) (now : ℕ) (log : BucketOpLog K)
      → IsSound K log
      → IsSound K (compact K io now log).1
  unfolding compact compact_result
  compact-IsSound io now log sound =
      let cutoff = now - log.compaction_ttl in
      elim (transaction-Outcome K cutoff io log sound) [
        | inl (e, failed) ↦ rw (failed, compact_result) sound
        | inr done ↦
            rw (done, compact_result)
              (record {
                entry = λ k v h.
                    let old = old_keys K cutoff (ops.iter log.bucket_ops) in
                    sound.entry k v
                      (ground (arith, h, get_value-removed_all K cutoff log.bucket_ops old k));
              })
      ]
