-- ===== src/Rules/Assigner/Sweep.antt =====
-- crates/pes-rules/src/assigner.rs: `sweep_expired_entries` and the keys of the cache.
use prometheus_entity_sync.Base.{
  ==_iff, Eq, Map, get, insert, contains_key, keep_if, if◌then◌else◌, ltb, lt→ltb, ltb→lt, ℕ, ◌-◌,
  ◌≤◌, ◌==◌, Bool, true, false, Option, none, some, List, [], ◌∷◌, Result, ok, err, Bool-cases, ◌≡◌,
  refl, inl, inr, arith,
}
use mathlib.Core.Path.{subst}
use prometheus_entity_sync.Core.{BucketAssignment, TokenClaims, SyncError}
use prometheus_entity_sync.Rules.Resolver.{World, Query}
use prometheus_entity_sync.Rules.Assigner.{
  CacheKey, key_eq, BucketAssigner, Clock, check_not_expired, is_fresh, fresh_value, cache_lookup,
  cache_key, resolve_all, store_assignments, assign_checked, assign_from, assign,
  sweep_expired_entries,
}

-- The state after a sweep.
abbrev pub swept : ℕ → BucketAssigner → BucketAssigner
swept now a = (sweep_expired_entries now a).1

keep_fresh :
    (ttl now : ℕ)
    → Map CacheKey (List BucketAssignment × ℕ)
    → Map CacheKey (List BucketAssignment × ℕ)
keep_fresh ttl now = keep_if (λ (e : CacheKey × (List BucketAssignment × ℕ)). is_fresh ttl now e.1)

stays_stale :
    (ttl now later t : ℕ) → now ≤ later → ltb (now - t) ttl ≡ false → ltb (later - t) ttl ≡ false
stays_stale ttl now later t h s = ground (arith, ltb→lt (later - t) ttl, lt→ltb (now - t) ttl)

-- No key twice, as in a hash map.
abbrev pub HasUniqueKeys {ℓ κ} : {K : Type ℓ} ⦃e : Eq K⦄ {V : Type κ} → Map K V → Type 0
HasUniqueKeys [] = Unit
HasUniqueKeys ((k, v) ∷ m) = (contains_key m k ≡ false) × HasUniqueKeys m

module _ {V : Type 0} where
  contains_key-insert :
      (m : Map CacheKey V) (k j : CacheKey) (v : V)
      → contains_key m j ≡ false
      → (k == j) ≡ false
      → contains_key (insert m k v) j ≡ false
  unfolding contains_key insert
  contains_key-insert [] k j v h n = rw n refl
  contains_key-insert ((i, w) ∷ m) k j v h n =
      ground (arith, ==_iff i k, ==_iff i j, ==_iff k j, contains_key-insert m k j v)

  insert-HasUniqueKeys :
      (m : Map CacheKey V) (k : CacheKey) (v : V) → HasUniqueKeys m → HasUniqueKeys (insert m k v)
  unfolding contains_key insert
  insert-HasUniqueKeys [] k v h = (refl, tt)
  insert-HasUniqueKeys ((i, w) ∷ m) k v h = elim (Bool-cases (i == k)) [
    | inl same ↦ rw same (subst (λ x. contains_key m x ≡ false) ((==_iff i k).0 same) h.0, h.1)
    | inr other ↦ rw other (
      contains_key-insert m k i v h.0 (ground (arith, ==_iff i k, ==_iff k i)),
      insert-HasUniqueKeys m k v h.1,
    )
  ]

  absent-get : (m : Map CacheKey V) (k : CacheKey) → contains_key m k ≡ false → get m k ≡ none
  unfolding contains_key get
  absent-get [] k h = refl
  absent-get ((i, w) ∷ m) k h = ground (arith, absent-get m k)

  absent-keep_if :
      (p : CacheKey × V → Bool) (m : Map CacheKey V) (k : CacheKey)
      → contains_key m k ≡ false
      → contains_key (keep_if p m) k ≡ false
  unfolding contains_key
  absent-keep_if p [] k h = refl
  absent-keep_if p ((i, w) ∷ m) k h = ground (arith, absent-keep_if p m k)

  keep_if-HasUniqueKeys :
      (p : CacheKey × V → Bool) (m : Map CacheKey V) → HasUniqueKeys m → HasUniqueKeys (keep_if p m)
  keep_if-HasUniqueKeys p [] h = tt
  keep_if-HasUniqueKeys p ((i, w) ∷ m) h = elim (Bool-cases (p (i, w))) [
    | inl keep ↦ rw keep (absent-keep_if p m i h.0, keep_if-HasUniqueKeys p m h.1)
    | inr drops ↦ rw drops (keep_if-HasUniqueKeys p m h.1)
  ]

same_head :
    {A B : Type 0} (f : A → B) (b : Bool) (x y z : A)
    → f y ≡ f z
    → f (if b then x else y) ≡ f (if b then x else z)
same_head f true x y z h = refl
same_head f false x y z h = h

lookup-sweep :
    (ttl now later : ℕ) (k : CacheKey) (m : Map CacheKey (List BucketAssignment × ℕ))
    → HasUniqueKeys m
    → now ≤ later
    → fresh_value ttl later (get (keep_fresh ttl now m) k) ≡ fresh_value ttl later (get m k)
unfolding keep_fresh get
lookup-sweep ttl now later k [] u h = refl
lookup-sweep ttl now later k ((i, (as', t)) ∷ m) u h = elim (Bool-cases (ltb (now - t) ttl)) [
  | inl fresh ↦ rw fresh (
      same_head (λ o. fresh_value ttl later o) (i == k) _ _ _
        (lookup-sweep ttl now later k m u.1 h))
  | inr stale ↦ elim (Bool-cases (i == k)) [
    | inl same ↦
        let absent = subst (λ x. contains_key m x ≡ false) ((==_iff i k).0 same) u.0 in
        rw
          (
            stale,
            same,
            absent-get (keep_fresh ttl now m) k (absent-keep_if _ m k absent),
            stays_stale ttl now later t h stale,
          )
          refl
    | inr other ↦ rw (stale, other) (lookup-sweep ttl now later k m u.1 h)
  ]
]

-- For a cache with no key twice, a sweep changes the answer of no later lookup in the cache.
pub sweep-lookup :
    (a : BucketAssigner) (now later : ℕ) (k : CacheKey)
    → HasUniqueKeys a.cache
    → now ≤ later
    → cache_lookup (swept now a) later k ≡ cache_lookup a later k
unfolding sweep_expired_entries cache_lookup keep_fresh
sweep-lookup a now later k u h = lookup-sweep a.cache_ttl now later k a.cache u h

store-HasUniqueKeys :
    (a : BucketAssigner) (key : CacheKey) (t : ℕ)
    (x : Result SyncError (List BucketAssignment) × List Query)
    → HasUniqueKeys a.cache
    → HasUniqueKeys (store_assignments a key t x).assigner.cache
unfolding store_assignments
store-HasUniqueKeys a key t (ok bs, calls) h = insert-HasUniqueKeys a.cache key (bs, t) h
store-HasUniqueKeys a key t (err e, calls) h = h

checked-HasUniqueKeys :
    (w : World) (a : BucketAssigner) (t : ℕ) (claims : TokenClaims)
    (o : Option (List BucketAssignment)) (r : Result SyncError (Unit {0}))
    → HasUniqueKeys a.cache
    → HasUniqueKeys (assign_checked w a t claims o r).assigner.cache
unfolding assign_from
checked-HasUniqueKeys w a t claims o (err e) h = h
checked-HasUniqueKeys w a t claims (some x) (ok _) h = h
checked-HasUniqueKeys w a t claims none (ok _) h =
    store-HasUniqueKeys a (cache_key a claims) t (resolve_all w claims a.rule_set.rules) h

-- An assignment, whatever its outcome, and a sweep keep the cache free of double keys.
pub assign-HasUniqueKeys :
    (w : World) (clock : Clock) (t now : ℕ) (a : BucketAssigner) (claims : TokenClaims)
    → HasUniqueKeys a.cache
    → HasUniqueKeys (assign w clock t a claims).assigner.cache × HasUniqueKeys (swept now a).cache
unfolding assign sweep_expired_entries
assign-HasUniqueKeys w clock t now a claims h = (
  checked-HasUniqueKeys w a t claims _ (check_not_expired clock.unix_secs claims) h,
  keep_if-HasUniqueKeys _ a.cache h,
)
