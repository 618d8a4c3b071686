-- ===== src/Rules/Validator/Sound.antt =====
-- `validate` accepts exactly the rule sets that keep the four documented rules.
use prometheus_entity_sync.Base.{
  Text, Map, get, contains_key-get, get-contains_key, Result, ok, err, ◌>>◌, List, [], ◌∷◌, Bool,
  true, false, not, ◌&&◌, ◌≡◌, ◌≢◌, refl, ◌↔◌, All, Has, Bool-cases, inl, inr, arith, ==_iff, ◌==◌,
  text_eq, some, all_test, and_split,
}
use prometheus_entity_sync.Core.{SyncRule}
use prometheus_entity_sync.Rules.Parser.{SyncRuleSet}
use prometheus_entity_sync.Rules.Template.{ParseError, segments, captures}
use prometheus_entity_sync.Rules.Validator.{
  is_bucket_id, is_empty, only_dollar_one, placeholders, declares, require, validate,
  validate_rules, validate_bucket_id, validate_parameters_have_queries,
  validate_parameter_query_placeholders, validate_references, validate_data_query_references,
}

-- docs/sync-rules-reference.md, "Validation rules".
pub record IsValidRule (bucket_id : Text) (rule : SyncRule) : Type 0 where
  pub id : is_bucket_id bucket_id ≡ true
  pub queries : All (λ p. (q : Text) × (get rule.parameter_queries p ≡ some q)) rule.parameters
  pub dollar_one :
      All
        (λ e. (placeholders e.1 ≢ []) × All (λ n. n ≡ b'1' ∷ []) (placeholders e.1))
        rule.parameter_queries
  pub references :
      All (λ e. All (λ n. Has n rule.parameters) (captures (segments e.1))) rule.data_queries

-- A loop that requires a property of each element accepts the lists on which all have it.
require_then :
    (b : Bool) (e : ParseError) (m : Result ParseError (Unit {0})) {u : Unit {0}}
    → (require b e >> m) ≡ ok u
    → (b ≡ true) × (m ≡ ok u)
require_then true e m h = (refl, h)
require_then false e m h = cc

then_both :
    (m n : Result ParseError (Unit {0})) {u : Unit {0}} → (m >> n) ≡ ok u → (m ≡ ok tt) × (n ≡ ok u)
then_both (ok v) n h = (refl, h)
then_both (err e) n h = cc

All-ones :
    (ns : List Text) → (all_test (λ n. n == b'1' ∷ []) ns ≡ true) ↔ All (λ n. n ≡ b'1' ∷ []) ns
All-ones [] = (λ h. tt, λ h. refl)
All-ones (n ∷ ns) =
    let ih = All-ones ns in
    let here = ==_iff n (b'1' ∷ []) in
    (λ h. let p = and_split _ _ h in (here.0 p.0, ih.0 p.1), λ h. rw (here.1 h.0) (ih.1 h.1))

dollar_list :
    (ns : List Text)
    → ((not (is_empty ns) && all_test (λ n. n == b'1' ∷ []) ns) ≡ true)
      ↔ ((ns ≢ []) × All (λ n. n ≡ b'1' ∷ []) ns)
dollar_list [] = (λ h. cc, λ h. absurd (h.0 refl))
dollar_list (n ∷ ns) = (λ h. (λ e. cc, (All-ones (n ∷ ns)).0 h), λ h. (All-ones (n ∷ ns)).1 h.1)

only_dollar_one_iff :
    (q : Text)
    → (only_dollar_one q ≡ true)
      ↔ ((placeholders q ≢ []) × All (λ n. n ≡ b'1' ∷ []) (placeholders q))
unfolding only_dollar_one
only_dollar_one_iff q = dollar_list (placeholders q)

declares_iff : (ps : List Text) (n : Text) → (declares ps n ≡ true) ↔ Has n ps
unfolding declares
declares_iff [] n = (λ h. cc, λ h. absurd h)
declares_iff (p ∷ ps) n =
    let ih = declares_iff ps n in
    (
      λ h. elim (Bool-cases (p == n)) [
        | inl same ↦ inl ((==_iff p n).0 same)
        | inr other ↦ inr (ih.0 (rw other at h))
      ],
      elim [ inl e ↦ rw ((==_iff p n).1 e) | inr m ↦ ground (arith, ih.1 m) ],
    )

queries_iff :
    (b : Text) (queries : Map Text Text) (ps : List Text)
    → (validate_parameters_have_queries b queries ps ≡ ok tt)
      ↔ All (λ p. (q : Text) × (get queries p ≡ some q)) ps
unfolding validate_parameters_have_queries
queries_iff b queries [] = (λ h. tt, λ h. refl)
queries_iff b queries (p ∷ ps) =
    let ih = queries_iff b queries ps in
    (
      λ h. let m = require_then _ _ _ h in (contains_key-get queries p m.0, ih.0 m.1),
      λ h. rw (get-contains_key queries p h.0.0 h.0.1) (ih.1 h.1),
    )

placeholders_iff :
    (b : Text) (queries : Map Text Text)
    → (validate_parameter_query_placeholders b queries ≡ ok tt)
      ↔ All (λ e. (placeholders e.1 ≢ []) × All (λ n. n ≡ b'1' ∷ []) (placeholders e.1)) queries
unfolding validate_parameter_query_placeholders
placeholders_iff b [] = (λ h. tt, λ h. refl)
placeholders_iff b ((p, q) ∷ queries) =
    let ih = placeholders_iff b queries in
    let here = only_dollar_one_iff q in
    (λ h. let m = require_then _ _ _ h in (here.0 m.0, ih.0 m.1), λ h. rw (here.1 h.0) (ih.1 h.1))

references_iff :
    (b name : Text) (ps names : List Text)
    → (validate_references b name ps names ≡ ok tt) ↔ All (λ n. Has n ps) names
unfolding validate_references
references_iff b name ps [] = (λ h. tt, λ h. refl)
references_iff b name ps (n ∷ names) =
    let ih = references_iff b name ps names in
    let here = declares_iff ps n in
    (λ h. let m = require_then _ _ _ h in (here.0 m.0, ih.0 m.1), λ h. rw (here.1 h.0) (ih.1 h.1))

data_queries_iff :
    (b : Text) (ps : List Text) (queries : Map Text Text)
    → (validate_data_query_references b ps queries ≡ ok tt)
      ↔ All (λ e. All (λ n. Has n ps) (captures (segments e.1))) queries
unfolding validate_data_query_references
data_queries_iff b ps [] = (λ h. tt, λ h. refl)
data_queries_iff b ps ((name, q) ∷ queries) =
    let ih = data_queries_iff b ps queries in
    let here = references_iff b name ps (captures (segments q)) in
    (λ h. let m = then_both _ _ h in (here.0 m.0, ih.0 m.1), λ h. rw (here.1 h.0) (ih.1 h.1))

validate_rules_iff :
    (rules : Map Text SyncRule)
    → (validate_rules rules ≡ ok tt) ↔ All (λ e. IsValidRule e.0 e.1) rules
unfolding validate_rules validate_bucket_id
validate_rules_iff [] = (λ h. tt, λ h. refl)
validate_rules_iff ((b, rule) ∷ rules) =
    let ih = validate_rules_iff rules in
    let qs = queries_iff b rule.parameter_queries rule.parameters in
    let phs = placeholders_iff b rule.parameter_queries in
    let refs = data_queries_iff b rule.parameters rule.data_queries in
    (
      λ h.
          let m = require_then (is_bucket_id b) _ _ h in
          let n = then_both _ _ m.1 in
          let o = then_both _ _ n.1 in
          let p = then_both _ _ o.1 in
          (
            record {
              id = m.0;
              queries = qs.0 n.0;
              dollar_one = phs.0 o.0;
              references = refs.0 p.0;
            },
            ih.0 p.1,
          ),
      λ h. rw (h.0.id, qs.1 h.0.queries, phs.1 h.0.dollar_one, refs.1 h.0.references) (ih.1 h.1),
    )

-- A rule set passes validation exactly when every bucket of it keeps the documented rules: its id
-- matches, each parameter has a query, each parameter query has placeholders and only `$1`, and the
-- data queries refer to declared parameters only.
pub validate_iff :
    (rule_set : SyncRuleSet)
    → (validate rule_set ≡ ok tt) ↔ All (λ e. IsValidRule e.0 e.1) rule_set.rules
unfolding validate
validate_iff rule_set = validate_rules_iff rule_set.rules
