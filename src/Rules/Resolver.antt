-- ===== src/Rules/Resolver.antt =====
-- crates/pes-rules/src/assigner.rs: `resolve_rule` and the bucket ids. Postgres is an argument that answers a
-- parameter query with its bound value; the calls made to it are listed in order in the result.
-- `World` also has the `Display` of JSON values and of errors.
pub mod Bound
pub mod Params
pub mod BucketIds
use prometheus_entity_sync.Base.{
  Text, codes, text_eq, text_beq, text_lt, Eq, ==_iff, ==_refl, Map, get, insert, contains_key,
  length, keep_if, map, ltb, leb, if◌then◌else◌, ℕ, ◌-◌, ◌==◌, Bool, true, false, not, ◌&&◌, ◌||◌,
  Option, none, some, List, [], ◌∷◌, ◌++◌, Result, ok, err, map_err, ◌>>=◌, ◌≡◌, ◌↔◌, arith,
}
use prometheus_entity_sync.Core.{
  SyncRule, BucketAssignment, BucketId, TokenClaims, SyncError, bucket_assignment_failed,
  auth_error, database,
}
use prometheus_entity_sync.Core.Values.{
  Json, null, bool, number, string, array, object, Fields, end, field, json_beq,
}
use prometheus_entity_sync.Rules.Parser.{SyncRuleSet}
use prometheus_entity_sync.Rules.Template.{
  ParseError, io, syntax, validation, validate_safe_value, substitute,
}
use prometheus_entity_sync.Rules.Validator.{validate}

-- The first column of a row as `try_get` reads it: as a `String`, or as an `i64` in decimal.
pub record Row : Type 0 where
  pub as_string : Option Text
  pub as_i64 : Result Text Text

-- What the crate calls and does not define.
pub record World : Type 0 where
  pub fetch_optional : Text → Text → Result Text (Option Row)
  pub display_json : Json → Text
  pub display_error : ParseError → Text

abbrev pub Query : Type 0
Query = Text × Text

-- `sort_by` on the names; they are keys of a map, hence distinct.
unfoldable pub insert_by_name : Text × Json → List (Text × Json) → List (Text × Json)
insert_by_name e [] = e ∷ []
insert_by_name e (f ∷ fs) = if text_lt f.0 e.0 then f ∷ insert_by_name e fs else e ∷ f ∷ fs

unfoldable pub sort_by_name : List (Text × Json) → List (Text × Json)
unfolding insert_by_name
sort_by_name [] = []
sort_by_name (e ∷ es) = insert_by_name e (sort_by_name es)

unfoldable pub join_comma : List Text → Text
join_comma [] = []
join_comma (s ∷ []) = s
join_comma (s ∷ t ∷ ts) = s ++ b',' ∷ join_comma (t ∷ ts)

unfoldable pub parameter_key : (Json → Text) → Map Text Json → Text
unfolding sort_by_name join_comma
parameter_key display resolved =
    join_comma (map (λ (e : Text × Json). e.0 ++ b'=' ∷ display e.1) (sort_by_name resolved))

unfoldable pub bucket_id_of : (Json → Text) → Text → Map Text Json → BucketId
unfolding parameter_key
bucket_id_of display rule_id resolved = rule_id ++ b':' ∷ parameter_key display resolved

pub no_query_message : Text → Text → Text
no_query_message rule_id param =
    codes "rule '"
    ++ (rule_id
        ++ (codes "' declares parameter '" ++ (param ++ codes "' with no parameter_queries entry")))

pub column_message : Text → Text → Text → Text
column_message rule_id param e =
    codes "rule '"
    ++ (rule_id
        ++ (codes "' parameter '"
            ++ (param ++ (codes "' query returned an unsupported column type: " ++ e))))

pub unsafe_value_message : Text → Text → Text
unsafe_value_message rule_id param =
    codes "rule '"
    ++ (rule_id
        ++ (codes "' parameter '"
            ++ (param ++ codes "' resolved to a value that failed the safe-value allowlist")))

-- `try_get::<String>` or else `try_get::<i64>`.
unfoldable pub column_value : Text → Text → Row → Result SyncError Text
column_value rule_id param row = elim row.as_string [
  | some s ↦ ok s
  | none ↦ map_err (λ e. bucket_assignment_failed (column_message rule_id param e)) row.as_i64
]

-- The two maps that the loop of `resolve_rule` fills.
pub record Resolved : Type 0 where
  pub parameters : Map Text Text
  pub json : Map Text Json

unfoldable pub accept_value : Text → Text → Text → Resolved → Result SyncError Resolved
accept_value rule_id param value r =
    if validate_safe_value value
    then ok (record {
      parameters = insert r.parameters param value;
      json = insert r.json param (string value);
    })
    else err (bucket_assignment_failed (unsafe_value_message rule_id param))

abbrev pub nothing_resolved : Resolved
nothing_resolved = record { parameters = []; json = [] }

module _ (w : World) where
  -- What one answer of Postgres makes of the maps; `none` says that no row was found.
  unfoldable pub take_answer :
      Text → Text → Result Text (Option Row) → Resolved → Result SyncError (Option Resolved)
  unfolding column_value accept_value
  take_answer rule_id param (err e) r = err (database e)
  take_answer rule_id param (ok none) r = ok none
  take_answer rule_id param (ok (some row)) r = do
    value ← column_value rule_id param row
    r' ← accept_value rule_id param value r
    ok (some r')

  -- The loop over the declared parameters, with the calls made so far.
  abbrev proceed :
      List Query
      → (Resolved → Result SyncError (Option Resolved) × List Query)
      → Result SyncError (Option Resolved)
      → Result SyncError (Option Resolved) × List Query
  proceed calls rest (ok (some r)) = rest r
  proceed calls rest (ok none) = (ok none, calls)
  proceed calls rest (err e) = (err e, calls)

  abbrev ask :
      SyncRule
      → Text
      → Text
      → Resolved
      → List Query
      → (Resolved → List Query → Result SyncError (Option Resolved) × List Query)
      → Option Text
      → Result SyncError (Option Resolved) × List Query
  ask rule sub param r calls rest none =
      (err (bucket_assignment_failed (no_query_message rule.id param)), calls)
  ask rule sub param r calls rest (some query) =
      let calls' = calls ++ (query, sub) ∷ [] in
      proceed calls' (λ r'. rest r' calls')
        (take_answer rule.id param (w.fetch_optional query sub) r)

  unfoldable pub resolve_parameters :
      SyncRule
      → Text
      → List Text
      → Resolved
      → List Query
      → Result SyncError (Option Resolved) × List Query
  unfolding take_answer
  resolve_parameters rule sub [] r calls = (ok (some r), calls)
  resolve_parameters rule sub (param ∷ params) r calls =
      ask rule sub param r calls (λ r' calls'. resolve_parameters rule sub params r' calls')
        (get rule.parameter_queries param)

  unfoldable pub render_queries :
      Text → Map Text Text → Map Text Text → Result SyncError (Map Text Text)
  render_queries rule_id resolved [] = ok []
  render_queries rule_id resolved ((query_name, query_template) ∷ queries) = do
    rendered ←
        map_err (λ e. bucket_assignment_failed (w.display_error e))
          (substitute rule_id query_template resolved)
    rest ← render_queries rule_id resolved queries
    ok ((query_name, rendered) ∷ rest)

  unfoldable pub assignment_of :
      SyncRule → Option Resolved → Result SyncError (Option BucketAssignment)
  unfolding render_queries bucket_id_of
  assignment_of rule none = ok none
  assignment_of rule (some r) = do
    data_queries ← render_queries rule.id r.parameters rule.data_queries
    ok (
        some (record {
          bucket_id = bucket_id_of w.display_json rule.id r.json;
          rule_id = rule.id;
          parameters = r.json;
          data_queries = data_queries;
        }))

  -- The result, and the calls to Postgres.
  unfoldable pub resolve_rule :
      SyncRule → TokenClaims → Result SyncError (Option BucketAssignment) × List Query
  unfolding resolve_parameters assignment_of
  resolve_rule rule claims =
      let (r, calls) = resolve_parameters rule claims.sub rule.parameters nothing_resolved [] in
      (r >>= assignment_of rule, calls)
