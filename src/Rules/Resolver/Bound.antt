-- ===== src/Rules/Resolver/Bound.antt =====
-- crates/pes-rules/src/assigner.rs: the calls that a rule makes to Postgres.
use prometheus_entity_sync.Base.{
  Text, text_eq, get, values, Has, Has-value, All, All-append, Option, none, some, List, [], ◌∷◌,
  ◌++◌, Result, ok, err, ◌≡◌, refl,
}
use prometheus_entity_sync.Core.{SyncRule, TokenClaims, SyncError}
use prometheus_entity_sync.Rules.Resolver.{
  World, Query, Resolved, ask, proceed, resolve_parameters, nothing_resolved, resolve_rule,
}

-- The query text is one of the rule's parameter queries, and the bound value is the subject.
abbrev pub IsBound : SyncRule → Text → Query → Type 0
IsBound rule sub call = (call.1 ≡ sub) × Has call.0 (values rule.parameter_queries)

module _ (w : World) where
  proceed-calls :
      (P : Query → Type 0) (calls : List Query)
      (rest : Resolved → Result SyncError (Option Resolved) × List Query)
      (answer : Result SyncError (Option Resolved))
      → All P calls
      → ((r : Resolved) → All P (rest r).1)
      → All P (proceed w calls rest answer).1
  proceed-calls P calls rest (ok (some r)) h k = k r
  proceed-calls P calls rest (ok none) h k = h
  proceed-calls P calls rest (err e) h k = h

  ask-calls :
      (rule : SyncRule) (sub p : Text) (r : Resolved) (calls : List Query)
      (rest : Resolved → List Query → Result SyncError (Option Resolved) × List Query)
      (o : Option Text)
      → get rule.parameter_queries p ≡ o
      → All (IsBound rule sub) calls
      → ((r' : Resolved) (c : List Query)
          → All (IsBound rule sub) c
          → All (IsBound rule sub) (rest r' c).1)
      → All (IsBound rule sub) (ask w rule sub p r calls rest o).1
  ask-calls rule sub p r calls rest none e h k = h
  ask-calls rule sub p r calls rest (some q) e h k =
      let calls' = calls ++ (q, sub) ∷ [] in
      let h' =
        All-append (IsBound rule sub) calls ((q, sub) ∷ []) h
          ((refl, Has-value rule.parameter_queries p q e), tt) in
      proceed-calls (IsBound rule sub) calls' (λ r'. rest r' calls') _ h' (λ r'. k r' calls' h')

  resolve_parameters-calls :
      (rule : SyncRule) (sub : Text) (params : List Text) (r : Resolved) (calls : List Query)
      → All (IsBound rule sub) calls
      → All (IsBound rule sub) (resolve_parameters w rule sub params r calls).1
  unfolding resolve_parameters
  resolve_parameters-calls rule sub [] r calls h = h
  resolve_parameters-calls rule sub (p ∷ params) r calls h =
      ask-calls rule sub p r calls (λ r' c. resolve_parameters w rule sub params r' c)
        (get rule.parameter_queries p) refl h
        (λ r' c h'. resolve_parameters-calls rule sub params r' c h')

  -- Every call that a rule makes to Postgres is one of its parameter queries, word for word, with
  -- the subject of the token as the bound value, whatever the subject is and however it ends.
  pub resolve_rule-IsBound :
      (rule : SyncRule) (claims : TokenClaims)
      → All (IsBound rule claims.sub) (resolve_rule w rule claims).1
  unfolding resolve_rule
  resolve_rule-IsBound rule claims =
      resolve_parameters-calls rule claims.sub rule.parameters (nothing_resolved) [] tt
