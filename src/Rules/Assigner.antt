-- ===== src/Rules/Assigner.antt =====
-- crates/pes-rules/src/assigner.rs: `BucketAssigner`, its cache, and the lookup of the buckets that
-- a changed row belongs to. A call takes the assigner and returns it beside the result. The wall
-- clock (an error before the Unix epoch) and the monotonic clock are arguments.
pub mod Cache
pub mod Sweep
use prometheus_entity_sync.Base.{
  Text, codes, text_eq, text_beq, text_lt, Eq, ==_iff, ==_refl, Map, get, insert, contains_key,
  length, keep_if, map, ltb, leb, if◌then◌else◌, ℕ, ◌-◌, ◌==◌, Bool, true, false, not, ◌&&◌, ◌||◌,
  Option, none, some, List, [], ◌∷◌, ◌++◌, Result, ok, err, ◌>>=◌, decimal, ◌≡◌, ◌↔◌, arith,
}
use prometheus_entity_sync.Core.{
  SyncRule, BucketAssignment, BucketId, TokenClaims, SyncError, bucket_assignment_failed,
  auth_error, database,
}
use prometheus_entity_sync.Core.Values.{
  Json, null, bool, number, string, array, object, Fields, end, field, json_beq,
}
use prometheus_entity_sync.Rules.Parser.{SyncRuleSet}
use prometheus_entity_sync.Rules.Template.{
  ParseError, io, syntax, validation, validate_safe_value, substitute,
}
use prometheus_entity_sync.Rules.Validator.{validate}
use prometheus_entity_sync.Rules.Resolver.{World, Query, resolve_rule}

pub record CacheKey : Type 0 where
  pub sub : Text
  pub rule_set_version : Text

unfoldable pub key_beq : CacheKey → CacheKey → Bool
key_beq a b = a.sub == b.sub && a.rule_set_version == b.rule_set_version

pub key_beq_iff : (a b : CacheKey) → (key_beq a b ≡ true) ↔ (a ≡ b)
unfolding key_beq
key_beq_iff a b = (
  λ h. ground (arith, h, ==_iff a.sub b.sub, ==_iff a.rule_set_version b.rule_set_version),
  λ h. ground (arith, h, ==_iff a.sub b.sub, ==_iff a.rule_set_version b.rule_set_version),
)

instance abbrev pub key_eq : Eq CacheKey
key_eq = record { equals = key_beq; equals_iff = key_beq_iff }

pub record BucketAssigner : Type 0 where
  pub rule_set : SyncRuleSet
  pub cache : Map CacheKey (List BucketAssignment × ℕ)
  pub cache_ttl : ℕ

-- `new` validates the rule set first.
unfoldable pub new_assigner : SyncRuleSet → ℕ → Result ParseError BucketAssigner
new_assigner rule_set cache_ttl = elim (validate rule_set) [
  | ok _ ↦ ok (record { rule_set = rule_set; cache = []; cache_ttl = cache_ttl })
  | err e ↦ err e
]

pub record Clock : Type 0 where
  pub unix_secs : Result Text ℕ
  pub instant : ℕ

pub clock_message : Text → Text
clock_message e = codes "system clock error: " ++ e

pub expired_message : ℕ → ℕ → Text
expired_message exp now =
    codes "JWT expired: exp=" ++ (decimal exp ++ (codes ", now=" ++ decimal now))

unfoldable pub check_not_expired : Result Text ℕ → TokenClaims → Result SyncError (Unit {0})
check_not_expired (err e) claims = err (auth_error (clock_message e))
check_not_expired (ok now) claims =
    if leb claims.exp now then err (auth_error (expired_message claims.exp now)) else ok tt

-- `inserted_at.elapsed() < self.cache_ttl`
abbrev pub is_fresh {ℓ} : {A : Type ℓ} → ℕ → ℕ → A × ℕ → Bool
is_fresh ttl now e = ltb (now - e.1) ttl

abbrev pub fresh_value : ℕ → ℕ → Option (List BucketAssignment × ℕ) → Option (List BucketAssignment)
fresh_value ttl now none = none
fresh_value ttl now (some e) = if is_fresh ttl now e then some e.0 else none

unfoldable pub cache_lookup : BucketAssigner → ℕ → CacheKey → Option (List BucketAssignment)
cache_lookup a now key = fresh_value a.cache_ttl now (get a.cache key)

-- The loop of `assign` over the rules, stopped by the first error.
abbrev add_assignment : Option BucketAssignment → List BucketAssignment → List BucketAssignment
add_assignment none as' = as'
add_assignment (some a) as' = a ∷ as'

abbrev pub add_rule :
    Result SyncError (Option BucketAssignment)
    → List Query
    → Result SyncError (List BucketAssignment)
    → List Query
    → Result SyncError (List BucketAssignment) × List Query
add_rule (err e) calls rest more = (err e, calls)
add_rule (ok o) calls rest more = (rest >>= λ as'. ok (add_assignment o as'), calls ++ more)

unfoldable pub resolve_all :
    World → TokenClaims → Map Text SyncRule → Result SyncError (List BucketAssignment) × List Query
resolve_all w claims [] = (ok [], [])
resolve_all w claims ((id, rule) ∷ rules) =
    let (here, calls) = resolve_rule w rule claims in
    let (rest, more) = resolve_all w claims rules in add_rule here calls rest more

pub record Reply : Type 0 where
  pub result : Result SyncError (List BucketAssignment)
  pub calls : List Query
  pub assigner : BucketAssigner

unfoldable pub store_assignments :
    BucketAssigner → CacheKey → ℕ → Result SyncError (List BucketAssignment) × List Query → Reply
store_assignments a key now (ok as', calls) = record {
  result = ok as';
  calls = calls;
  assigner = record a { cache = insert a.cache key (as', now) };
}
store_assignments a key now (err e, calls) = record { result = err e; calls = calls; assigner = a }

abbrev pub cache_key : BucketAssigner → TokenClaims → CacheKey
cache_key a claims = record { sub = claims.sub; rule_set_version = a.rule_set.version }

unfoldable pub assign_from :
    World → BucketAssigner → ℕ → TokenClaims → Option (List BucketAssignment) → Reply
unfolding store_assignments
assign_from w a stored_at claims (some cached) = record {
  result = ok cached;
  calls = [];
  assigner = a;
}
assign_from w a stored_at claims none =
    store_assignments a (cache_key a claims) stored_at (resolve_all w claims a.rule_set.rules)

abbrev pub assign_checked :
    World
    → BucketAssigner
    → ℕ
    → TokenClaims
    → Option (List BucketAssignment)
    → Result SyncError (Unit {0})
    → Reply
assign_checked w a stored_at claims cached (err e) = record {
  result = err e;
  calls = [];
  assigner = a;
}
assign_checked w a stored_at claims cached (ok _) = assign_from w a stored_at claims cached

-- `stored_at` is the reading of the monotonic clock when the answer is put into the cache.
unfoldable pub assign : World → Clock → ℕ → BucketAssigner → TokenClaims → Reply
unfolding assign_from check_not_expired cache_lookup
assign w clock stored_at a claims =
    assign_checked w a stored_at claims (cache_lookup a clock.instant (cache_key a claims))
      (check_not_expired clock.unix_secs claims)

-- The number of entries evicted, and the assigner after the sweep.
unfoldable pub sweep_expired_entries : ℕ → BucketAssigner → ℕ × BucketAssigner
sweep_expired_entries now a =
    let kept =
      keep_if (λ (e : CacheKey × (List BucketAssignment × ℕ)). is_fresh a.cache_ttl now e.1)
        a.cache in
    (length a.cache - length kept, record a { cache = kept })

-- A string and a number are equal if the number prints as the string.
unfoldable pub json_scalars_equal : Json → Json → Bool
json_scalars_equal (string s) (number n) = s == n
json_scalars_equal (number n) (string s) = s == n
json_scalars_equal a b = json_beq a b

any_column : Json → Fields → Bool
any_column value end = false
any_column value (field name column rest) = json_scalars_equal value column || any_column value rest

any_parameter : Map Text Json → Fields → Bool
any_parameter [] row = false
any_parameter ((name, value) ∷ params) row = any_column value row || any_parameter params row

unfoldable pub row_matches_assignment : Json → BucketAssignment → Bool
unfolding any_parameter any_column json_scalars_equal
row_matches_assignment (object row) assignment = any_parameter assignment.parameters row
row_matches_assignment _ assignment = false

unfoldable pub matching_buckets : Text → Json → List BucketAssignment → List BucketId
unfolding row_matches_assignment
matching_buckets entity_type row [] = []
matching_buckets entity_type row (a ∷ as') =
    let rest = matching_buckets entity_type row as' in
    if contains_key a.data_queries entity_type && row_matches_assignment row a
    then a.bucket_id ∷ rest
    else rest

unfoldable pub affected_in :
    Text → Json → ℕ → ℕ → Map CacheKey (List BucketAssignment × ℕ) → List BucketId
unfolding matching_buckets
affected_in entity_type row ttl now [] = []
affected_in entity_type row ttl now ((key, e) ∷ cache) =
    let rest = affected_in entity_type row ttl now cache in
    if is_fresh ttl now e then matching_buckets entity_type row e.0 ++ rest else rest

unfoldable pub find_affected_buckets : BucketAssigner → ℕ → Text → Json → List BucketId
unfolding affected_in
find_affected_buckets a now entity_type row = affected_in entity_type row a.cache_ttl now a.cache
