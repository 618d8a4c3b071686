-- ===== src/Rules/Validator.antt =====
-- crates/pes-rules/src/validator.rs: the semantic rules of a rule set.
pub mod Sound
use prometheus_entity_sync.Base.{
  Text, codes, text_eq, nat_beq, Map, contains_key, Option, none, some, Result, ok, err, ◌>>=◌,
  ◌>>◌, List, [], ◌∷◌, ◌++◌, map, ℕ, ◌==◌, if◌then◌else◌, Bool, true, false, not, ◌&&◌, ◌||◌,
  all_test,
}
use prometheus_entity_sync.Core.{SyncRule}
use prometheus_entity_sync.Rules.Chars.{is_lower, is_digit}
use prometheus_entity_sync.Rules.Parser.{SyncRuleSet}
use prometheus_entity_sync.Rules.Template.{ParseError, validation, segments, captures}

-- [a-z0-9_-]
abbrev pub is_id_char : ℕ → Bool
is_id_char c = is_lower c || (is_digit c || (nat_beq c b'_' || nat_beq c b'-'))

-- `^[a-z][a-z0-9_-]*$`
unfoldable pub is_bucket_id : Text → Bool
is_bucket_id [] = false
is_bucket_id (c ∷ s) = is_lower c && all_test is_id_char s

digit_run : Text → Text
digit_run [] = []
digit_run (c ∷ s) = if is_digit c then c ∷ digit_run s else []

abbrev with_run : Text → List Text → List Text
with_run [] rest = rest
with_run (c ∷ run) rest = (c ∷ run) ∷ rest

-- `\$([0-9]+)`: the digits of each placeholder. No match begins inside of a match.
unfoldable pub placeholders : Text → List Text
unfolding digit_run
placeholders [] = []
placeholders (c ∷ s) = with_run (if nat_beq c b'$' then digit_run s else []) (placeholders s)

abbrev pub is_empty {ℓ} : {A : Type ℓ} → List A → Bool
is_empty [] = true
is_empty (x ∷ xs) = false

unfoldable pub only_dollar_one : Text → Bool
unfolding placeholders
only_dollar_one query =
    not (is_empty (placeholders query)) && all_test (λ n. n == b'1' ∷ []) (placeholders query)

pub declares : List Text → Text → Bool
declares [] name = false
declares (p ∷ ps) name = p == name || declares ps name

id_message : Text → Text
id_message bucket_id = codes "bucket id '" ++ (bucket_id ++ codes "' must match [a-z][a-z0-9_-]*")

query_message : Text → Text
query_message param =
    codes "parameter '" ++ (param ++ codes "' has no corresponding entry in parameter_queries")

placeholder_message : Text → Text
placeholder_message param =
    codes "parameter_queries."
    ++ (param ++ codes " must contain exactly the placeholder $1 and no other $N placeholders")

reference_message : Text → Text → Text
reference_message query_name referenced =
    codes "data."
    ++ (query_name
        ++ (codes " references undeclared parameter 'bucket_parameters."
            ++ (referenced ++ codes "'")))

abbrev pub require : Bool → ParseError → Result ParseError (Unit {0})
require true e = ok tt
require false e = err e

validate_bucket_id : Text → Result ParseError (Unit {0})
validate_bucket_id bucket_id =
    require (is_bucket_id bucket_id) (validation bucket_id (id_message bucket_id))

validate_parameters_have_queries : Text → Map Text Text → List Text → Result ParseError (Unit {0})
validate_parameters_have_queries bucket_id queries [] = ok tt
validate_parameters_have_queries bucket_id queries (param ∷ params) = do
  require (contains_key queries param) (validation bucket_id (query_message param))
  validate_parameters_have_queries bucket_id queries params

validate_parameter_query_placeholders : Text → Map Text Text → Result ParseError (Unit {0})
validate_parameter_query_placeholders bucket_id [] = ok tt
validate_parameter_query_placeholders bucket_id ((param, query) ∷ queries) = do
  require (only_dollar_one query) (validation bucket_id (placeholder_message param))
  validate_parameter_query_placeholders bucket_id queries

validate_references : Text → Text → List Text → List Text → Result ParseError (Unit {0})
validate_references bucket_id query_name parameters [] = ok tt
validate_references bucket_id query_name parameters (referenced ∷ names) = do
  require (declares parameters referenced)
      (validation bucket_id (reference_message query_name referenced))
  validate_references bucket_id query_name parameters names

validate_data_query_references : Text → List Text → Map Text Text → Result ParseError (Unit {0})
validate_data_query_references bucket_id parameters [] = ok tt
validate_data_query_references bucket_id parameters ((query_name, query) ∷ queries) = do
  validate_references bucket_id query_name parameters (captures (segments query))
  validate_data_query_references bucket_id parameters queries

validate_rules : Map Text SyncRule → Result ParseError (Unit {0})
validate_rules [] = ok tt
validate_rules ((bucket_id, rule) ∷ rules) = do
  validate_bucket_id bucket_id
  validate_parameters_have_queries bucket_id rule.parameter_queries rule.parameters
  validate_parameter_query_placeholders bucket_id rule.parameter_queries
  validate_data_query_references bucket_id rule.parameters rule.data_queries
  validate_rules rules

pub validate : SyncRuleSet → Result ParseError (Unit {0})
validate rule_set = validate_rules rule_set.rules
