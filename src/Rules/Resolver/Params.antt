-- ===== src/Rules/Resolver/Params.antt =====
-- crates/pes-rules/src/assigner.rs: a rule resolves to safe values.
use prometheus_entity_sync.Base.{
  Text, text_eq, Map, get, insert, get-insert, get-insert_self, All, All-map_weaken, ◌==◌, true,
  Option, none, some, List, [], ◌∷◌, ◌++◌, Result, ok, err, >>=-eq-ok, ok-injective, ◌≡◌, refl, sym,
  ap, ◌∙◌, inl, inr, arith, Bool-cases,
}
use mathlib.Core.Path.{subst}
use prometheus_entity_sync.Core.{SyncRule, BucketAssignment, TokenClaims, SyncError}
use prometheus_entity_sync.Core.Values.{Json, string}
use prometheus_entity_sync.Rules.Template.{validate_safe_value}
use prometheus_entity_sync.Rules.Resolver.{
  World, Query, Row, Resolved, column_value, accept_value, take_answer, ask, proceed,
  resolve_parameters, render_queries, assignment_of, nothing_resolved, resolve_rule, bucket_id_of,
}

-- A value of both maps: safe, and its JSON is the string.
abbrev pub IsSafePair : Option Text → Option Json → Type 0
IsSafePair none none = Unit
IsSafePair (some v) (some j) = (j ≡ string v) × (validate_safe_value v ≡ true)
IsSafePair _ _ = ⊥

record IsSafe (r : Resolved) : Type 0 where
  at : (name : Text) → IsSafePair (get r.parameters name) (get r.json name)

nothing_IsSafe : IsSafe nothing_resolved
unfolding get
nothing_IsSafe = record { at = λ name. tt }

some-injective' {ℓ} : {A : Type ℓ} {a b : A} → ◌≡◌ {A = Option A} (some a) (some b) → a ≡ b
some-injective' h = cc

abbrev accepted : Resolved → Text → Text → Resolved
accepted r p v = record { parameters = insert r.parameters p v; json = insert r.json p (string v) }

accept_value_sound :
    (id p v : Text) (r : Resolved) {r' : Resolved}
    → accept_value id p v r ≡ ok r'
    → (validate_safe_value v ≡ true) × (r' ≡ accepted r p v)
unfolding accept_value
accept_value_sound id p v r h = elim (Bool-cases (validate_safe_value v)) [
  | inl safe ↦ (safe, sym (ok-injective (rw safe at h)))
  | inr unsafe ↦ cc (rw unsafe at h)
]

accepted-IsSafe :
    (r : Resolved) (p v : Text) → validate_safe_value v ≡ true → IsSafe r → IsSafe (accepted r p v)
accepted-IsSafe r p v safe h = record {
  at = λ name.
      rw (get-insert r.parameters p v name, get-insert r.json p (string v) name)
        (elim (Bool-cases (p == name)) [
          | inl same ↦ rw same (refl, safe)
          | inr other ↦ rw other (h.at name)
        ]);
}

-- The name has a value.
abbrev HasKey : Resolved → Text → Type 0
HasKey r name = (v : Text) × (get r.parameters name ≡ some v)

accepted-HasKey : (r : Resolved) (p v name : Text) → HasKey r name → HasKey (accepted r p v) name
accepted-HasKey r p v name (x, h) = elim (Bool-cases (p == name)) [
  | inl same ↦ (v, rw (get-insert r.parameters p v name, same))
  | inr other ↦ (x, rw (get-insert r.parameters p v name, other) h)
]

module _ (w : World) where
  take_answer_sound :
      (id p : Text) (answer : Result Text (Option Row)) (r : Resolved) {r' : Resolved}
      → take_answer w id p answer r ≡ ok (some r')
      → (v : Text) × (validate_safe_value v ≡ true) × (r' ≡ accepted r p v)
  unfolding take_answer
  take_answer_sound id p (err e) r h = cc
  take_answer_sound id p (ok none) r h = cc
  take_answer_sound id p (ok (some row)) r h =
      let m = >>=-eq-ok (column_value id p row) _ h in
      let n = >>=-eq-ok (accept_value id p m.0 r) _ m.2 in
      let a = accept_value_sound id p m.0 r n.1 in (m.0, a.0, cc (n.2, a.1))

  -- What the loop leaves: safe maps, with a value for each of the parameters.
  record Fills (params : List Text) (r r' : Resolved) : Type 0 where
    safe : IsSafe r'
    keeps : (name : Text) → HasKey r name → HasKey r' name
    filled : All (HasKey r') params

  abbrev EndsWell : (Resolved → Type 0) → Result SyncError (Option Resolved) → Type 0
  EndsWell P (ok (some r)) = P r
  EndsWell P _ = Unit

  EndsWell-map :
      (P Q : Resolved → Type 0)
      → ((r : Resolved) → P r → Q r)
      → (x : Result SyncError (Option Resolved)) → EndsWell P x
      → EndsWell Q x
  EndsWell-map P Q f (ok (some r)) h = f r h
  EndsWell-map P Q f (ok none) h = tt
  EndsWell-map P Q f (err e) h = tt

  proceed-EndsWell :
      (P : Resolved → Type 0) (calls : List Query)
      (rest : Resolved → Result SyncError (Option Resolved) × List Query)
      (answer : Result SyncError (Option Resolved))
      → ((r : Resolved) → answer ≡ ok (some r) → EndsWell P (rest r).0)
      → EndsWell P (proceed w calls rest answer).0
  proceed-EndsWell P calls rest (ok (some r)) k = k r refl
  proceed-EndsWell P calls rest (ok none) k = tt
  proceed-EndsWell P calls rest (err e) k = tt

  ask-EndsWell :
      (P : Resolved → Type 0) (rule : SyncRule) (sub p : Text) (r : Resolved) (calls : List Query)
      (rest : Resolved → List Query → Result SyncError (Option Resolved) × List Query)
      (o : Option Text)
      → ((v : Text) (c : List Query)
          → validate_safe_value v ≡ true
          → EndsWell P (rest (accepted r p v) c).0)
      → EndsWell P (ask w rule sub p r calls rest o).0
  ask-EndsWell P rule sub p r calls rest none k = tt
  ask-EndsWell P rule sub p r calls rest (some q) k =
      let calls' = calls ++ (q, sub) ∷ [] in
      proceed-EndsWell P calls' (λ r'. rest r' calls') _
        (λ r' e.
          let a = take_answer_sound rule.id p (w.fetch_optional q sub) r e in
          subst (λ x. EndsWell P (rest x calls').0) (sym a.2) (k a.0 calls' a.1))

  resolve_parameters-Fills :
      (rule : SyncRule) (sub : Text) (params : List Text) (r : Resolved) (calls : List Query)
      → IsSafe r
      → EndsWell (Fills params r) (resolve_parameters w rule sub params r calls).0
  unfolding resolve_parameters
  resolve_parameters-Fills rule sub [] r calls h = record {
    safe = h;
    keeps = λ n k. k;
    filled = tt;
  }
  resolve_parameters-Fills rule sub (p ∷ params) r calls h =
      ask-EndsWell (Fills (p ∷ params) r) rule sub p r calls
        (λ r' c. resolve_parameters w rule sub params r' c) (get rule.parameter_queries p)
        (λ v c safe.
          EndsWell-map (Fills params (accepted r p v)) (Fills (p ∷ params) r)
            (λ r' f. record {
              safe = f.safe;
              keeps = λ n k. f.keeps n (accepted-HasKey r p v n k);
              filled = (f.keeps p (v, get-insert_self r.parameters p v), f.filled);
            })
            _
            (resolve_parameters-Fills rule sub params (accepted r p v) c
              (accepted-IsSafe r p v safe h)))

  pair_at :
      (o : Option Text) (j : Option Json) (v : Text)
      → o ≡ some v
      → IsSafePair o j
      → (j ≡ some (string v)) × (validate_safe_value v ≡ true)
  pair_at none j v e h = cc
  pair_at (some u) none v e h = absurd h
  pair_at (some u) (some j) v e h =
      let same : u ≡ v = ground (arith, e) in
      (cc (h.0, same), subst (λ x. validate_safe_value x ≡ true) same h.1)

  assignment_of_sound :
      (rule : SyncRule) (o : Option Resolved) {a : BucketAssignment}
      → assignment_of w rule o ≡ ok (some a)
      → (r : Resolved) × (o ≡ some r)
        × (queries : Map Text Text) × (render_queries w rule.id r.parameters rule.data_queries
            ≡ ok queries)
        × (a ≡ record {
          bucket_id = bucket_id_of w.display_json rule.id r.json;
          rule_id = rule.id;
          parameters = r.json;
          data_queries = queries;
        })
  unfolding assignment_of
  assignment_of_sound rule none h = cc
  assignment_of_sound rule (some r) h =
      let m = >>=-eq-ok (render_queries w rule.id r.parameters rule.data_queries) _ h in
      (r, refl, m.0, m.1, sym (some-injective' (ok-injective m.2)))

  -- A rule that resolves gives an assignment with the rule's id, the bucket id of its parameters,
  -- and a value for each declared parameter, each a string that passed the allowlist.
  pub resolve_rule_sound :
      (rule : SyncRule) (claims : TokenClaims) {a : BucketAssignment}
      → (resolve_rule w rule claims).0 ≡ ok (some a)
      → (a.rule_id ≡ rule.id)
        × (a.bucket_id ≡ bucket_id_of w.display_json rule.id a.parameters)
        × All
            (λ n.
              (v : Text) × (get a.parameters n ≡ some (string v)) × (validate_safe_value v ≡ true))
            rule.parameters
  unfolding resolve_rule
  resolve_rule_sound rule claims {a} h =
      let loop = resolve_parameters w rule claims.sub rule.parameters nothing_resolved [] in
      let m = >>=-eq-ok loop.0 (assignment_of w rule) h in
      let a' = assignment_of_sound rule m.0 m.2 in
      let r = a'.0 in
      let fills : Fills rule.parameters nothing_resolved r =
        subst (EndsWell (Fills rule.parameters nothing_resolved)) (m.1 ∙ ap ok a'.1) (
          resolve_parameters-Fills rule claims.sub rule.parameters nothing_resolved []
            nothing_IsSafe) in
      rw a'.4 (
        refl,
        refl,
        All-map_weaken (HasKey r) _
            (λ n k.
              let p = pair_at (get r.parameters n) (get r.json n) k.0 k.1 (fills.safe.at n) in
              (k.0, p.0, p.1))
            rule.parameters fills.filled,
      )
