-- ===== src/Rules/Tests.antt =====
-- The rules on a concrete rule set: one bucket per user, as in the README.

use prometheus_entity_sync.Base.{
  Text, codes, text_eq, Map, get, ltb, Result, ok, err, Option, none, some, List, [], ◌∷◌, ◌++◌,
  All, Has, values, ℕ, ◌≤◌, ◌<◌, true, false, ◌≡◌, ◌↔◌, refl, inl, inr, arith,
}
use prometheus_entity_sync.Core.{SyncRule, BucketAssignment, TokenClaims, auth_error}
use prometheus_entity_sync.Core.Values.{Json, string, object, field, end}
use prometheus_entity_sync.Rules.Template.{
  validate_safe_value, substitute, segments, captures, render,
}
use prometheus_entity_sync.Rules.Template.Safety.{
  IsResolved, substitute_exact, substitute_noninterference, outside,
}
use prometheus_entity_sync.Rules.Parser.{SyncRuleSet}
use prometheus_entity_sync.Rules.Validator.{validate}
use prometheus_entity_sync.Rules.Validator.Sound.{IsValidRule, validate_iff}
use prometheus_entity_sync.Rules.Resolver.{World, bucket_id_of, sort_by_name, resolve_rule}
use prometheus_entity_sync.Rules.Resolver.Params.{resolve_rule_sound}
use prometheus_entity_sync.Rules.Resolver.BucketIds.{bucket_id_of-injective}
use prometheus_entity_sync.Rules.Assigner.{
  BucketAssigner, CacheKey, key_eq, Clock, Reply, assign, expired_message, cache_lookup, cache_key,
}
use prometheus_entity_sync.Rules.Assigner.Cache.{
  Untouched, IsBoundIn, assign-expired, assign-IsBound,
}

abbrev user_rule : SyncRule
user_rule = record {
  id = codes "user";
  description = none;
  parameters = codes "user_id" ∷ [];
  parameter_queries = (codes "user_id", codes "SELECT id FROM users WHERE sub = $1") ∷ [];
  data_queries =
      (codes "todos", codes "SELECT * FROM todos WHERE owner = {bucket_parameters.user_id}") ∷ [];
}

abbrev user_rules : SyncRuleSet
user_rules = record { version = codes "1"; rules = (codes "user", user_rule) ∷ [] }

-- A string is shown between quotes, and every subject has the id `u1`.
abbrev show_json : Json → Text
show_json (string v) = b'"' ∷ (v ++ b'"' ∷ [])
show_json _ = []

abbrev world : World
world = record {
  fetch_optional = λ q sub. ok (some (record { as_string = some (codes "u1"); as_i64 = err [] }));
  display_json = show_json;
  display_error = λ e. [];
}

abbrev claims : TokenClaims
claims = record { sub = codes "alice"; tenant_id = none; exp = 1000; custom = [] }

abbrev assigner : BucketAssigner
assigner = record { rule_set = user_rules; cache = []; cache_ttl = 300 }

abbrev at : ℕ → Clock
at now = record { unix_secs = ok now; instant = now }

abbrev resolved : Text → Map Text Text
resolved v = (codes "user_id", v) ∷ []

abbrev template : Text
template = codes "x = {bucket_parameters.user_id}"

abbrev alice : BucketAssignment
alice = record {
  bucket_id = codes "user:user_id=\"u1\"";
  rule_id = codes "user";
  parameters = (codes "user_id", string (codes "u1")) ∷ [];
  data_queries = (codes "todos", codes "SELECT * FROM todos WHERE owner = 'u1'") ∷ [];
}

abbrev full : BucketAssigner
full = record assigner {
  cache = (record { sub = codes "alice"; rule_set_version = codes "1" }, (alice ∷ [], 10)) ∷ [];
}

substitute_exact_example :
    (substitute (codes "user") template (resolved (codes "u1")) ≡ ok (codes "x = 'u1'")) ↔ (
      All (IsResolved (resolved (codes "u1"))) (captures (segments template))
      × (codes "x = 'u1'" ≡ render (resolved (codes "u1")) (segments template)))
substitute_exact_example =
    substitute_exact (codes "user") template (resolved (codes "u1")) (codes "x = 'u1'")

substitute_noninterference_example :
    outside false (codes "x = 'u1'") ≡ outside false (codes "x = 'someone-else'")
unfolding prometheus_entity_sync.Rules.Template.Safety.flip_at substitute segments get
    prometheus_entity_sync.Base.text_beq validate_safe_value
substitute_noninterference_example =
    substitute_noninterference (codes "user") template (resolved (codes "u1"))
      (resolved (codes "someone-else")) (codes "x = 'u1'") (codes "x = 'someone-else'") (refl, tt)
      refl refl

validate_iff_example :
    (validate user_rules ≡ ok tt) ↔ All (λ e. IsValidRule e.0 e.1) user_rules.rules
validate_iff_example = validate_iff user_rules

resolve_rule_sound_example :
    (alice.rule_id ≡ codes "user")
    × (alice.bucket_id ≡ bucket_id_of show_json (codes "user") alice.parameters)
    × All
        (λ n.
          (v : Text) × (get alice.parameters n ≡ some (string v)) × (validate_safe_value v ≡ true))
        (codes "user_id" ∷ [])
unfolding resolve_rule get prometheus_entity_sync.Base.text_beq validate_safe_value substitute
    prometheus_entity_sync.Base.insert
resolve_rule_sound_example = resolve_rule_sound world user_rule claims refl

bucket_id_of-injective_example :
    (codes "user" ≡ codes "user") × (sort_by_name alice.parameters ≡ sort_by_name alice.parameters)
unfolding prometheus_entity_sync.Rules.Validator.is_bucket_id sort_by_name validate_safe_value
bucket_id_of-injective_example =
    bucket_id_of-injective show_json (λ v h. refl) (codes "user") (codes "user") alice.parameters
      alice.parameters refl refl (((codes "u1"), refl, refl), tt) (((codes "u1"), refl, refl), tt)
      refl refl

assign-expired_example :
    let r = assign world (at 1000) 1000 full claims in
    (r.result ≡ err (auth_error (expired_message 1000 1000))) × Untouched full r
assign-expired_example = assign-expired world 1000 1000 1000 full claims (omega arith)

assign-IsBound_example :
    All (IsBoundIn user_rules.rules (codes "alice")) (assign world (at 10) 10 assigner claims).calls
assign-IsBound_example = assign-IsBound world (at 10) 10 assigner claims

abbrev todo_row : Json
todo_row = object (field (codes "owner") (string (codes "u1")) end)
