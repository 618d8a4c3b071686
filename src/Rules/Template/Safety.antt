-- ===== src/Rules/Template/Safety.antt =====
-- What a substituted query is: defined exactly for resolved and safe values, and of a structure
-- that the values cannot change.
use prometheus_entity_sync.Base.{
  Text, text_eq, get, Map, ◌≡◌, ◌↔◌, refl, sym, ap, ◌∙◌, ok, List, [], ◌∷◌, ◌++◌, nat_beq, All, ℕ,
  Bool, true, false, not, Option, none, some, if◌then◌else◌, arith, all_test, and_split, >>=-eq-ok,
}
use mathlib.Core.List.{append_assoc}
use prometheus_entity_sync.Rules.Chars.{is_safe_char}
use prometheus_entity_sync.Rules.Template.{
  substitute, validate_safe_value, check_value, check_captures, captures, segments, render, Segment,
  literal, reference, quoted,
}

-- The parameter has a value, and the value is safe.
abbrev pub IsResolved : Map Text Text → Text → Type 0
IsResolved resolved name =
    (value : Text) × (get resolved name ≡ some value) × (validate_safe_value value ≡ true)

check_value_sound :
    (b name : Text) (o : Option Text) {u : Unit {0}}
    → check_value b name o ≡ ok u
    → (value : Text) × (o ≡ some value) × (validate_safe_value value ≡ true)
unfolding check_value
check_value_sound b name none h = cc
check_value_sound b name (some value) h = (value, refl, ground (arith, h))

check_captures_sound :
    (b : Text) (resolved : Map Text Text) (names : List Text) {u : Unit {0}}
    → check_captures b resolved names ≡ ok u
    → All (IsResolved resolved) names
unfolding check_captures
check_captures_sound b resolved [] h = tt
check_captures_sound b resolved (name ∷ names) h =
    let m = >>=-eq-ok (check_value b name (get resolved name)) _ h in
    (check_value_sound b name (get resolved name) m.1, check_captures_sound b resolved names m.2)

check_captures_complete :
    (b : Text) (resolved : Map Text Text) (names : List Text)
    → All (IsResolved resolved) names
    → check_captures b resolved names ≡ ok tt
unfolding check_captures check_value
check_captures_complete b resolved [] h = refl
check_captures_complete b resolved (name ∷ names) h =
    rw (h.0.1, check_value) (rw h.0.2 (check_captures_complete b resolved names h.1))

-- `substitute` succeeds with a text exactly when every referenced parameter has a safe value and the
-- text is the whole query rendered.
pub substitute_exact :
    (b query : Text) (resolved : Map Text Text) (r : Text)
    → (substitute b query resolved ≡ ok r) ↔ (
        All (IsResolved resolved) (captures (segments query))
        × (r ≡ render resolved (segments query)))
unfolding substitute
substitute_exact b query resolved r = (
  λ h.
      let m = >>=-eq-ok (check_captures b resolved (captures (segments query))) _ h in
      (check_captures_sound b resolved _ m.1, ground (arith, m.2)),
  λ h. rw (check_captures_complete b resolved _ h.0) (ap (λ x. ok x) (sym h.1)),
)

-- What stands outside of single-quoted literals; `true` says that a literal is open.
unfoldable pub flip_at : Bool → ℕ → Bool
flip_at open' c = if nat_beq c b'\'' then not open' else open'

abbrev shown : Bool → ℕ → Text → Text
shown open' c rest = if nat_beq c b'\'' then rest else if open' then rest else c ∷ rest

unfoldable pub outside : Bool → Text → Text
unfolding flip_at
outside open' [] = []
outside open' (c ∷ s) = shown open' c (outside (flip_at open' c) s)

-- No reference stands inside of a literal of the template.
abbrev pub RefsOutside : Bool → List Segment → Type 0
RefsOutside open' [] = Unit
RefsOutside open' (literal c ∷ segs) = RefsOutside (flip_at open' c) segs
RefsOutside open' (reference name ∷ segs) = (open' ≡ false) × RefsOutside open' segs

outside_text : Bool → List Segment → Text
unfolding flip_at
outside_text open' [] = []
outside_text open' (literal c ∷ segs) = shown open' c (outside_text (flip_at open' c) segs)
outside_text open' (reference name ∷ segs) = outside_text open' segs

safe_char_ne_quote : (c : ℕ) → is_safe_char c ≡ true → nat_beq c b'\'' ≡ false
unfolding is_safe_char
safe_char_ne_quote c h = ground arith

outside_inside :
    (v rest : Text)
    → all_test is_safe_char v ≡ true
    → outside true (v ++ b'\'' ∷ rest) ≡ outside false rest
unfolding outside
outside_inside [] rest h = refl
outside_inside (c ∷ v) rest h =
    let p = and_split _ _ h in rw (safe_char_ne_quote c p.0, flip_at) (outside_inside v rest p.1)

outside-quoted :
    (v rest : Text)
    → validate_safe_value v ≡ true
    → outside false (quoted v ++ rest) ≡ outside false rest
unfolding outside validate_safe_value
outside-quoted v rest h = rw append_assoc (outside_inside v rest (and_split _ _ h).0)

outside-render :
    (resolved : Map Text Text) (segs : List Segment) (open' : Bool)
    → RefsOutside open' segs
    → All (IsResolved resolved) (captures segs)
    → outside open' (render resolved segs) ≡ outside_text open' segs
unfolding render captures outside outside_text
outside-render resolved [] open' r h = refl
outside-render resolved (literal c ∷ segs) open' r h =
    ap (shown open' c) (outside-render resolved segs (flip_at open' c) r h)
outside-render resolved (reference name ∷ segs) true r h = cc
outside-render resolved (reference name ∷ segs) false r h =
    rw h.0.1 (
      outside-quoted h.0.0 (render resolved segs) h.0.2
      ∙ outside-render resolved segs false r.1 h.1)

-- If every reference of a template stands outside of its literals, a condition on the template that
-- the validator does not check, any two substitutions into it that succeed render queries
-- with the same text outside of literals: there an accepted value cannot leave the literal it is put in.
pub substitute_noninterference :
    (b query : Text) (resolved other : Map Text Text) (q r : Text)
    → RefsOutside false (segments query)
    → substitute b query resolved ≡ ok q
    → substitute b query other ≡ ok r
    → outside false q ≡ outside false r
substitute_noninterference b query resolved other q r refs h k =
    let m = (substitute_exact b query resolved q).0 h in
    let n = (substitute_exact b query other r).0 k in
    ap (outside false) m.1
    ∙ outside-render resolved (segments query) false refs m.0
    ∙ sym (outside-render other (segments query) false refs n.0)
    ∙ sym (ap (outside false) n.1)
