-- ===== src/Rules/Assigner/Cache.antt =====
-- crates/pes-rules/src/assigner.rs: expiry, the per-subject cache and the sweep of `BucketAssigner`.
use prometheus_entity_sync.Base.{
  Text, text_eq, Map, values, Has, All, All-append, leb→le, ℕ, ◌≤◌, Option, none, some, List, [],
  ◌∷◌, Result, ok, err, ◌≡◌, refl, sym, inl, inr, arith,
}
use mathlib.Core.Path.{subst}
use prometheus_entity_sync.Core.{SyncRule, BucketAssignment, TokenClaims, SyncError, auth_error}
use prometheus_entity_sync.Rules.Resolver.{World, Query, resolve_rule}
use prometheus_entity_sync.Rules.Resolver.Bound.{IsBound, resolve_rule-IsBound}
use prometheus_entity_sync.Rules.Assigner.{
  CacheKey, key_eq, BucketAssigner, Clock, clock_message, expired_message, check_not_expired,
  cache_key, resolve_all, add_rule, assign_checked, Reply, store_assignments, assign_from, assign,
}

-- Nothing happened: no call to Postgres, and the assigner is the one given.
abbrev pub Untouched : BucketAssigner → Reply → Type 0
Untouched a r = (r.calls ≡ []) × (r.assigner ≡ a)

expired_claims :
    (now : ℕ) (claims : TokenClaims)
    → claims.exp ≤ now
    → check_not_expired (ok now) claims ≡ err (auth_error (expired_message claims.exp now))
unfolding check_not_expired
expired_claims now claims h = ground (arith, leb→le claims.exp now, h)

-- The bound value and the origin of a call made for a rule set.
abbrev pub IsBoundIn : Map Text SyncRule → Text → Query → Type 0
IsBoundIn rules sub call = (rule : SyncRule) × Has rule (values rules) × IsBound rule sub call

module _ (w : World) where
  -- A token whose `exp` is not after the clock's reading is refused: the result is an authentication
  -- error, Postgres is not called, and the assigner and its cache are unchanged, whatever they hold.
  pub assign-expired :
      (now instant stored_at : ℕ) (a : BucketAssigner) (claims : TokenClaims)
      → claims.exp ≤ now
      → let r = assign w (record { unix_secs = ok now; instant = instant }) stored_at a claims in
        (r.result ≡ err (auth_error (expired_message claims.exp now))) × Untouched a r
  unfolding assign
  assign-expired now instant stored_at a claims h =
      rw (expired_claims now claims h) (refl, (refl, refl))

  -- If the clock cannot be read, the result is an authentication error and nothing else happens.
  pub assign-clock_error :
      (e : Text) (instant stored_at : ℕ) (a : BucketAssigner) (claims : TokenClaims)
      → let r = assign w (record { unix_secs = err e; instant = instant }) stored_at a claims in
        (r.result ≡ err (auth_error (clock_message e))) × Untouched a r
  unfolding assign check_not_expired
  assign-clock_error e instant stored_at a claims = (refl, (refl, refl))

  All-rules_weaken :
      (rules more : Map Text SyncRule) (sub : Text)
      → ((r : SyncRule) → Has r (values rules) → Has r (values more))
      → (calls : List Query) → All (IsBoundIn rules sub) calls
      → All (IsBoundIn more sub) calls
  All-rules_weaken rules more sub f [] h = tt
  All-rules_weaken rules more sub f (c ∷ calls) ((r, has, bound), h) =
      ((r, f r has, bound), All-rules_weaken rules more sub f calls h)

  IsBoundIn-first :
      (id : Text) (rule : SyncRule) (rules : Map Text SyncRule) (sub : Text) (calls : List Query)
      → All (IsBound rule sub) calls
      → All (IsBoundIn ((id, rule) ∷ rules) sub) calls
  IsBoundIn-first id rule rules sub [] h = tt
  IsBoundIn-first id rule rules sub (c ∷ calls) (b, h) =
      ((rule, inl refl, b), IsBoundIn-first id rule rules sub calls h)

  add_rule-calls :
      (P : Query → Type 0) (here : Result SyncError (Option BucketAssignment)) (calls : List Query)
      (rest : Result SyncError (List BucketAssignment)) (more : List Query)
      → All P calls
      → All P more
      → All P (add_rule here calls rest more).1
  add_rule-calls P (err e) calls rest more h k = h
  add_rule-calls P (ok o) calls rest more h k = All-append P calls more h k

  resolve_all-calls :
      (claims : TokenClaims) (rules : Map Text SyncRule)
      → All (IsBoundIn rules claims.sub) (resolve_all w claims rules).1
  unfolding resolve_all
  resolve_all-calls claims [] = tt
  resolve_all-calls claims ((id, rule) ∷ rules) =
      let (here, calls) = resolve_rule w rule claims in
      let (rest, more) = resolve_all w claims rules in
      add_rule-calls (IsBoundIn ((id, rule) ∷ rules) claims.sub) (resolve_rule w rule claims).0
        (resolve_rule w rule claims).1 (resolve_all w claims rules).0 (resolve_all w claims rules).1
        (IsBoundIn-first id rule rules claims.sub (resolve_rule w rule claims).1
          (resolve_rule-IsBound w rule claims))
        (All-rules_weaken rules ((id, rule) ∷ rules) claims.sub (λ r h. inr h)
          (resolve_all w claims rules).1 (resolve_all-calls claims rules))

  store-calls :
      (a : BucketAssigner) (key : CacheKey) (now : ℕ)
      (x : Result SyncError (List BucketAssignment) × List Query)
      → (store_assignments a key now x).calls ≡ x.1
  unfolding store_assignments
  store-calls a key now (ok as', calls) = refl
  store-calls a key now (err e, calls) = refl

  assign_from-calls :
      (a : BucketAssigner) (stored_at : ℕ) (claims : TokenClaims)
      (cached : Option (List BucketAssignment))
      → All (IsBoundIn a.rule_set.rules claims.sub) (assign_from w a stored_at claims cached).calls
  unfolding assign_from
  assign_from-calls a t claims (some as') = tt
  assign_from-calls a t claims none =
      subst (All (IsBoundIn a.rule_set.rules claims.sub))
        (sym (store-calls a (cache_key a claims) t (resolve_all w claims a.rule_set.rules)))
        (resolve_all-calls claims a.rule_set.rules)

  assign_checked-calls :
      (a : BucketAssigner) (stored_at : ℕ) (claims : TokenClaims)
      (cached : Option (List BucketAssignment)) (r : Result SyncError (Unit {0}))
      → All
          (IsBoundIn a.rule_set.rules claims.sub)
          (assign_checked w a stored_at claims cached r).calls
  assign_checked-calls a t claims cached (err e) = tt
  assign_checked-calls a t claims cached (ok _) = assign_from-calls a t claims cached

  -- Every call that an assignment makes to Postgres is, word for word, a parameter query of a rule of
  -- the rule set, with the subject of the token as the bound value.
  pub assign-IsBound :
      (clock : Clock) (stored_at : ℕ) (a : BucketAssigner) (claims : TokenClaims)
      → All (IsBoundIn a.rule_set.rules claims.sub) (assign w clock stored_at a claims).calls
  unfolding assign
  assign-IsBound clock t a claims =
      assign_checked-calls a t claims _ (check_not_expired clock.unix_secs claims)
