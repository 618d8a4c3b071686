-- ===== src/Server/Config/Expansion.antt =====
-- crates/pes-server/src/config.rs: `interpolate_env_vars` against a reading of the text from left to
-- right, which has no cache and no fuel.
use prometheus_entity_sync.Base.{
  Text, text_eq, get, insert, get-insert, Result, ok, err, ◌>>=◌, Option, none, some, List, [], ◌∷◌,
  ◌++◌, ℕ, zero, suc, ◌+◌, ◌<◌, length, Bool-cases, ◌==◌, ==_iff, ◌≡◌, refl, sym, ap, ◌∙◌, inl, inr,
  arith,
}
use mathlib.Core.List.{append_assoc, append-nil}
use mathlib.Core.Path.{subst}
use prometheus_entity_sync.Server.Config.{
  ConfigError, missing_env_var, escape_toml_basic_string, split_at_first, open_marker, close_marker,
  Cache, from_env, resolve, go_on, closed, opened, interpolate_loop, interpolate_env_vars,
}
use prometheus_entity_sync.Server.Config.Pieces.{
  Piece, variable, literals, outside_reference, inside_reference, expand, BeginsAt,
  outside-BeginsAt, EndsAt, inside-EndsAt,
}

module _ (env_lookup : Text → Option Text) where
  abbrev IsCached : Cache env_lookup → Type 0
  IsCached cache = (name value : Text) → get cache name ≡ some value → env_lookup name ≡ some value

  abbrev prefixed : Text → Result ConfigError Text → Result ConfigError Text
  prefixed out (ok t) = ok (out ++ t)
  prefixed out (err e) = err e

  prefix-append :
      (out s : Text) (r : Result ConfigError Text)
      → prefixed (out ++ s) r ≡ prefixed out (r >>= λ t. ok (s ++ t))
  prefix-append out s (ok t) = ap (λ x. ok x) (append_assoc out s t)
  prefix-append out s (err e) = refl

  prefix-cons :
      (c : ℕ) (out : Text) (r : Result ConfigError Text)
      → prefixed out (r >>= λ t. ok (c ∷ t)) ≡ prefixed (out ++ c ∷ []) r
  prefix-cons c out r = sym (prefix-append out (c ∷ []) r)

  prefixed-nil : (r : Result ConfigError Text) → prefixed [] r ≡ r
  prefixed-nil (ok t) = refl
  prefixed-nil (err e) = refl

  expand-literals :
      (s out : Text) (ps : List Piece)
      → prefixed out (expand env_lookup (literals s ps))
        ≡ prefixed (out ++ s) (expand env_lookup ps)
  unfolding expand
  expand-literals [] out ps = rw (append-nil out) refl
  expand-literals (c ∷ s) out ps =
      prefix-cons c out (expand env_lookup (literals s ps))
      ∙ expand-literals s (out ++ c ∷ []) ps
      ∙ ap (λ x. prefixed x (expand env_lookup ps)) (append_assoc out (c ∷ []) s)

  -- Text without references.
  plain_text : (s out : Text) → prefixed out (expand env_lookup (literals s [])) ≡ ok (out ++ s)
  unfolding expand
  plain_text s out = expand-literals s out [] ∙ ap (λ x. ok x) (append-nil (out ++ s))

  -- The value that the loop gives a name, whichever place it comes from.
  abbrev Resolves : Text → Result ConfigError (Text × Cache env_lookup) → Type 0
  Resolves name (ok (value, cache)) = (env_lookup name ≡ some value) × IsCached cache
  Resolves name (err e) = (env_lookup name ≡ none) × (e ≡ missing_env_var name)

  insert-IsCached :
      (cache : Cache env_lookup) (name value : Text)
      → IsCached cache
      → env_lookup name ≡ some value
      → IsCached (insert cache name value)
  insert-IsCached cache name value h e other v found = elim (Bool-cases (name == other)) [
    | inl same ↦
        let got : some value ≡ some v =
          sym (get-insert cache name value other ∙ (rw same refl)) ∙ found in
        subst (λ k. env_lookup k ≡ some v) ((==_iff name other).0 same) (e ∙ got)
    | inr apart ↦ h other v (sym (get-insert cache name value other ∙ (rw apart refl)) ∙ found)
  ]

  from_env-Resolves :
      (cache : Cache env_lookup) (name : Text) (o : Option Text)
      → IsCached cache
      → env_lookup name ≡ o
      → Resolves name (from_env env_lookup name cache o)
  from_env-Resolves cache name none h e = (e, refl)
  from_env-Resolves cache name (some v) h e = (e, insert-IsCached cache name v h e)

  resolve-Resolves :
      (cache : Cache env_lookup) (name : Text) (o : Option Text)
      → IsCached cache
      → get cache name ≡ o
      → Resolves name (resolve env_lookup name cache o)
  resolve-Resolves cache name (some v) h e = (h name v e, h)
  resolve-Resolves cache name none h e = from_env-Resolves cache name (env_lookup name) h refl

  go_on-expand :
      (rest : Text) (fuel : ℕ) (name out : Text) (r : Result ConfigError (Text × Cache env_lookup))
      → Resolves name r
      → ((cache : Cache env_lookup) (out' : Text)
          → IsCached cache
          → interpolate_loop env_lookup fuel rest cache out'
            ≡ some (prefixed out' (expand env_lookup (outside_reference rest))))
      → go_on env_lookup (λ cache' out'. interpolate_loop env_lookup fuel rest cache' out') out r
        ≡ some (prefixed out (expand env_lookup (variable name ∷ outside_reference rest)))
  unfolding expand
  go_on-expand rest fuel name out (err e) (unset, same) ih = rw (unset, same) refl
  go_on-expand rest fuel name out (ok (value, cache)) (set, h) ih =
      ih cache (out ++ escape_toml_basic_string value) h
      ∙ ap (λ x. some x)
          (rw set (
            prefix-append out (escape_toml_basic_string value)
              (expand env_lookup (outside_reference rest))))

  -- The rest of the text after an opening marker.
  closed-expand :
      (after : Text) (fuel : ℕ) (cache : Cache env_lookup) (out : Text) (o : Option (Text × Text))
      → EndsAt [] after (inside_reference [] after) o
      → IsCached cache
      → ((rest : Text) (c : Cache env_lookup) (out' : Text)
          → length rest < length after
          → IsCached c
          → interpolate_loop env_lookup fuel rest c out'
            ≡ some (prefixed out' (expand env_lookup (outside_reference rest))))
      → closed env_lookup (interpolate_loop env_lookup fuel) cache out after o
        ≡ some (prefixed out (expand env_lookup (inside_reference [] after)))
  unfolding expand
  closed-expand after fuel cache out none e h ih =
      ap (λ x. some x)
        (sym (plain_text (open_marker ++ after) out)
          ∙ ap (λ ps. prefixed out (expand env_lookup ps)) (sym e))
  closed-expand after fuel cache out (some (name, rest)) (e, lt) h ih =
      go_on-expand rest fuel name out (resolve env_lookup name cache (get cache name))
        (resolve-Resolves cache name (get cache name) h refl) (λ c out' k. ih rest c out' lt k)
      ∙ ap (λ ps. some (prefixed out (expand env_lookup ps))) (sym e)

  opened-expand :
      (input : Text) (fuel : ℕ) (cache : Cache env_lookup) (out : Text) (o : Option (Text × Text))
      → BeginsAt input (outside_reference input) o
      → IsCached cache
      → ((rest : Text) (c : Cache env_lookup) (out' : Text)
          → length rest < length input
          → IsCached c
          → interpolate_loop env_lookup fuel rest c out'
            ≡ some (prefixed out' (expand env_lookup (outside_reference rest))))
      → opened env_lookup (interpolate_loop env_lookup fuel) cache out input o
        ≡ some (prefixed out (expand env_lookup (outside_reference input)))
  opened-expand input fuel cache out none e h ih =
      ap (λ x. some x)
        (sym (plain_text input out) ∙ ap (λ ps. prefixed out (expand env_lookup ps)) (sym e))
  opened-expand input fuel cache out (some (before, after)) (e, lt) h ih =
      closed-expand after fuel cache (out ++ before) (split_at_first close_marker after)
        (inside-EndsAt [] after) h
        (λ rest c out' shorter k. ih rest c out' (omega (arith, shorter, lt)) k)
      ∙ ap (λ x. some x)
          (sym (expand-literals before out (inside_reference [] after))
            ∙ ap (λ ps. prefixed out (expand env_lookup ps)) (sym e))

  loop-expand :
      (fuel : ℕ) (rest : Text) (cache : Cache env_lookup) (out : Text)
      → length rest < fuel
      → IsCached cache
      → interpolate_loop env_lookup fuel rest cache out
        ≡ some (prefixed out (expand env_lookup (outside_reference rest)))
  unfolding interpolate_loop
  loop-expand zero rest cache out lt h = absurd (omega arith)
  loop-expand (suc fuel) rest cache out lt h =
      opened-expand rest fuel cache out (split_at_first open_marker rest) (outside-BeginsAt rest) h
        (λ r c out' shorter k. loop-expand fuel r c out' (omega (arith, shorter, lt)) k)

  -- The loop of `interpolate_env_vars` always comes to its end, and its result is that of the reading
  -- from left to right: each closed reference is replaced by the escaped value of its variable, an
  -- unclosed one stays, and the first variable that is not set is the error. The cache cannot be
  -- observed.
  pub interpolate_env_vars-expand :
      (input : Text)
      → interpolate_env_vars env_lookup input ≡ some (expand env_lookup (outside_reference input))
  unfolding interpolate_env_vars get
  interpolate_env_vars-expand input =
      loop-expand (length input + 1) input [] [] (omega arith) (λ name value e. cc)
      ∙ ap (λ x. some x) (prefixed-nil (expand env_lookup (outside_reference input)))
