-- ===== src/Rules/Resolver/BucketIds.antt =====
-- crates/pes-rules/src/assigner.rs: the bucket ids that `resolve_rule` makes.
use mathlib.Core.List.{append_assoc, append-nil, map}
use prometheus_entity_sync.Base.{
  Text, text_eq, Map, All, all_test, and_split, nat_beq, nat_beq_iff, ℕ, Bool, true, List, [], ◌∷◌,
  ◌++◌, ◌≡◌, refl, sym, ap, ◌∙◌, arith, not,
}
use prometheus_entity_sync.Core.Values.{Json, string}
use prometheus_entity_sync.Rules.Chars.{is_safe_char, is_lower}
use prometheus_entity_sync.Rules.Template.{validate_safe_value}
use prometheus_entity_sync.Rules.Resolver.{bucket_id_of, parameter_key, sort_by_name, join_comma}
use prometheus_entity_sync.Rules.Validator.{is_bucket_id, is_id_char}

-- serde_json prints a string of the allowlist as it stands, between double quotes.
abbrev pub PrintsSafeStrings : (Json → Text) → Type 0
PrintsSafeStrings display =
    (v : Text) → validate_safe_value v ≡ true → display (string v) ≡ b'"' ∷ (v ++ b'"' ∷ [])

-- The value of a resolved parameter: a safe text.
abbrev pub IsSafeText : Text × Json → Type 0
IsSafeText e = (v : Text) × (e.1 ≡ string v) × (validate_safe_value v ≡ true)

abbrev pub names : List (Text × Json) → List Text
names = map (λ e. e.0)

abbrev without : ℕ → Text → Bool
without sep = all_test (λ c. not (nat_beq c sep))

-- A text without the separator ends at its first occurrence.
unique_split :
    (sep : ℕ) (v u x y : Text)
    → without sep v ≡ true
    → without sep u ≡ true
    → v ++ sep ∷ x ≡ u ++ sep ∷ y
    → (v ≡ u) × (x ≡ y)
unique_split sep [] [] x y hv hu e = (refl, cc)
unique_split sep [] (d ∷ u) x y hv hu e =
    let apart = (and_split (not (nat_beq d sep)) (without sep u) hu).0 in
    ground (arith, nat_beq_iff d sep, apart, e)
unique_split sep (c ∷ v) [] x y hv hu e =
    let apart = (and_split (not (nat_beq c sep)) (without sep v) hv).0 in
    ground (arith, nat_beq_iff c sep, apart, e)
unique_split sep (c ∷ v) (d ∷ u) x y hv hu e =
    let same : c ≡ d = cc in
    let ih = unique_split sep v u x y (and_split _ _ hv).1 (and_split _ _ hu).1 (cc) in
    (λ i. same i ∷ ih.0 i, ih.1)

cancel_left : (p x y : Text) → p ++ x ≡ p ++ y → x ≡ y
cancel_left [] x y e = e
cancel_left (c ∷ p) x y e = cancel_left p x y (cc)

safe_no_quote : (c : ℕ) → is_safe_char c ≡ true → not (nat_beq c b'"') ≡ true
unfolding is_safe_char
safe_no_quote c h = ground arith

all_weaken :
    (p q : ℕ → Bool)
    → ((c : ℕ) → p c ≡ true → q c ≡ true)
    → (v : Text) → all_test p v ≡ true
    → all_test q v ≡ true
all_weaken p q f [] h = refl
all_weaken p q f (c ∷ v) h = let s = and_split _ _ h in rw (f c s.0) (all_weaken p q f v s.1)

safe_without_quote : (v : Text) → validate_safe_value v ≡ true → without b'"' v ≡ true
unfolding validate_safe_value
safe_without_quote v h = all_weaken is_safe_char _ safe_no_quote v (and_split _ _ h).0

id_char_no_colon : (c : ℕ) → is_id_char c ≡ true → not (nat_beq c b':') ≡ true
id_char_no_colon c h = ground arith

lower_is_id : (c : ℕ) → is_lower c ≡ true → is_id_char c ≡ true
lower_is_id c h = ground arith

id_without_colon : (id : Text) → is_bucket_id id ≡ true → without b':' id ≡ true
unfolding is_bucket_id
id_without_colon [] h = cc
id_without_colon (c ∷ id) h =
    let s = and_split (is_lower c) (all_test is_id_char id) h in
    rw (id_char_no_colon c (lower_is_id c s.0)) (all_weaken is_id_char _ id_char_no_colon id s.1)

module _ (display : Json → Text) (prints : PrintsSafeStrings display) where
  abbrev entry : Text × Json → Text
  entry e = e.0 ++ b'=' ∷ display e.1

  entry_tail :
      (n : Text) (j : Json) (t : Text) (h : IsSafeText (n, j))
      → entry (n, j) ++ t ≡ n ++ (b'=' ∷ b'"' ∷ (h.0 ++ b'"' ∷ t))
  entry_tail n j t (v, e, safe) = rw (e, prints v safe, append_assoc, append_assoc)

  -- One entry, with what follows it.
  split_entry :
      (n : Text) (j k : Json) (t u : Text)
      → IsSafeText (n, j)
      → IsSafeText (n, k)
      → entry (n, j) ++ t ≡ entry (n, k) ++ u
      → (j ≡ k) × (t ≡ u)
  split_entry n j k t u hj hk e =
      let plain = sym (entry_tail n j t hj) ∙ e ∙ entry_tail n k u hk in
      let values = cancel_left n _ _ plain in
      let parts =
        unique_split b'"' hj.0 hk.0 t u (safe_without_quote hj.0 hj.2)
          (safe_without_quote hk.0 hk.2) (cc values) in
      (hj.1 ∙ ap string parts.0 ∙ sym hk.1, parts.1)

  same_entry :
      (n m : Text) (j k : Json) (t u : Text)
      → n ≡ m
      → IsSafeText (n, j)
      → IsSafeText (m, k)
      → entry (n, j) ++ t ≡ entry (m, k) ++ u
      → (n ≡ m) × (j ≡ k) × (t ≡ u)
  same_entry n m j k t u same hj hk e =
      let parts = split_entry n j k t u hj hk (e ∙ ap (λ x. entry (x, k) ++ u) (sym same)) in
      (same, parts.0, parts.1)

  join-injective :
      (es fs : List (Text × Json))
      → names es ≡ names fs
      → All IsSafeText es
      → All IsSafeText fs
      → join_comma (map entry es) ≡ join_comma (map entry fs)
      → es ≡ fs
  unfolding join_comma
  join-injective [] [] n he hf e = refl
  join-injective [] (f ∷ fs) n he hf e = cc
  join-injective (e' ∷ es) [] n he hf e = cc
  join-injective ((n, j) ∷ []) ((m, k) ∷ []) same (hj, _) (hk, _) e =
      let parts =
        same_entry n m j k [] [] (cc) hj hk
          (rw (append-nil (entry (n, j)), append-nil (entry (m, k))) e) in
      cc
  join-injective ((n, j) ∷ []) ((m, k) ∷ f2 ∷ fs) same he hf e = cc
  join-injective ((n, j) ∷ e2 ∷ es) ((m, k) ∷ []) same he hf e = cc
  join-injective ((n, j) ∷ e2 ∷ es) ((m, k) ∷ f2 ∷ fs) same (hj, he) (hk, hf) e =
      let parts =
        same_entry n m j k (b',' ∷ join_comma (map entry (e2 ∷ es)))
          (b',' ∷ join_comma (map entry (f2 ∷ fs))) (cc) hj hk e in
      let rest = join-injective (e2 ∷ es) (f2 ∷ fs) (cc) he hf (cc) in cc

  -- A bucket id determines its rule and its parameters: if the rule ids are valid, the values are
  -- safe texts that JSON prints as they stand, and the parameters bear the same names, then equal
  -- bucket ids come from the same rule and the same values.
  pub bucket_id_of-injective :
      (r1 r2 : Text) (m1 m2 : Map Text Json)
      → is_bucket_id r1 ≡ true
      → is_bucket_id r2 ≡ true
      → All IsSafeText (sort_by_name m1)
      → All IsSafeText (sort_by_name m2)
      → names (sort_by_name m1) ≡ names (sort_by_name m2)
      → bucket_id_of display r1 m1 ≡ bucket_id_of display r2 m2
      → (r1 ≡ r2) × (sort_by_name m1 ≡ sort_by_name m2)
  unfolding bucket_id_of parameter_key
  bucket_id_of-injective r1 r2 m1 m2 h1 h2 s1 s2 same e =
      let parts =
        unique_split b':' r1 r2 (join_comma (map entry (sort_by_name m1)))
          (join_comma (map entry (sort_by_name m2))) (id_without_colon r1 h1)
          (id_without_colon r2 h2) e in
      (parts.0, join-injective (sort_by_name m1) (sort_by_name m2) same s1 s2 parts.1)
