-- ===== src/Rules/Template/Source.antt =====
-- The scan loses nothing: the segments of a query, written out again, are the query.
use mathlib.Core.List.{append_assoc}
use prometheus_entity_sync.Base.{
  Text, length, length-append, drop, drop-length, nat_beq_iff, ℕ, zero, suc, ◌+◌, true, Bool-cases,
  some, Option-cases, List, [], ◌∷◌, ◌++◌, ◌≡◌, refl, sym, ap, ◌∙◌, inl, inr, arith,
}
use prometheus_entity_sync.Rules.Chars.{is_name_char}
use prometheus_entity_sync.Rules.Template.{
  Segment, literal, reference, open_ref, strip_prefix, name_run, named, closes, match_ref, scan,
  segments,
}

abbrev pub ref_text : Text → Text
ref_text name = open_ref ++ (name ++ b'}' ∷ [])

pub source : List Segment → Text
source [] = []
source (literal c ∷ segs) = c ∷ source segs
source (reference name ∷ segs) = ref_text name ++ source segs

strip_prefix_sound : (p t s : Text) → strip_prefix p t ≡ some s → t ≡ p ++ s
unfolding strip_prefix
strip_prefix_sound [] t s h = ground (arith, h)
strip_prefix_sound (a ∷ p) [] s h = cc
strip_prefix_sound (a ∷ p) (c ∷ t) s h =
    let same : c ≡ a = ground arith in
    let rest : t ≡ p ++ s = strip_prefix_sound p t s (ground arith) in λ i. same i ∷ rest i

name_run-prefix : (s : Text) → s ≡ name_run s ++ drop (length (name_run s)) s
unfolding name_run
name_run-prefix [] = refl
name_run-prefix (c ∷ s) = elim (Bool-cases (is_name_char c)) [
  | inl h ↦ rw h (ap (◌∷◌ c) (name_run-prefix s))
  | inr h ↦ rw h
]

closes_sound : (s : Text) → closes s ≡ true → (r : Text) × (s ≡ b'}' ∷ r)
closes_sound [] h = cc
closes_sound (c ∷ s) h = (s, λ i. (nat_beq_iff c b'}').0 h i ∷ s)

named_sound :
    (run rest name : Text)
    → named run rest ≡ some name
    → (run ≡ name) × ((r : Text) × (rest ≡ b'}' ∷ r))
named_sound [] rest name h = cc
named_sound (c ∷ run) rest name h = elim (Bool-cases (closes rest)) [
  | inl yes' ↦ (ground (arith, h, yes'), closes_sound rest yes')
  | inr no' ↦ cc (rw no' at h)
]

-- A match is the text of a reference.
pub match_ref_sound :
    (t name : Text) → match_ref t ≡ some name → (r : Text) × (t ≡ ref_text name ++ r)
unfolding match_ref
match_ref_sound t name h = elim (Option-cases (strip_prefix open_ref t)) [
  | inl missing ↦ cc (rw missing at h)
  | inr (s, found) ↦
      let m = named_sound (name_run s) (drop (length (name_run s)) s) name (rw found at h) in
      (
        m.1.0,
        strip_prefix_sound open_ref t s found
            ∙ ap (λ x. open_ref ++ x)
                (name_run-prefix s
                  ∙ (λ i. m.0 i ++ m.1.1 i)
                  ∙ sym (append_assoc name (b'}' ∷ []) m.1.0)),
      )
]

length-ref_text : (name : Text) → length (ref_text name) ≡ suc (length name + 19)
length-ref_text name = omega (arith, length-append name (b'}' ∷ []))

rest_of_match :
    (c : ℕ) (s name : Text) (segs : List Segment)
    → ((r : Text) × (c ∷ s ≡ ref_text name ++ r))
    → source segs ≡ drop (length name + 19) s
    → ref_text name ++ source segs ≡ c ∷ s
rest_of_match c s name segs (r, e) ih =
    let rest : drop (suc (length name + 19)) (c ∷ s) ≡ r =
      ap (drop (suc (length name + 19))) e
      ∙ ap (λ (n : ℕ). drop n (ref_text name ++ r)) (sym (length-ref_text name))
      ∙ drop-length (ref_text name) r in
    ap (λ x. ref_text name ++ x) (ih ∙ rest) ∙ sym e

source-scan : (s : Text) (skip : ℕ) → source (scan s skip) ≡ drop skip s
unfolding source scan
source-scan [] zero = refl
source-scan [] (suc skip) = refl
source-scan (c ∷ s) (suc skip) = source-scan s skip
source-scan (c ∷ s) zero = elim (Option-cases (match_ref (c ∷ s))) [
  | inl missing ↦ rw missing (ap (◌∷◌ c) (source-scan s 0))
  | inr (name, found) ↦ rw found (
      rest_of_match c s name _ (match_ref_sound (c ∷ s) name found)
        (source-scan s (length name + 19)))
]

-- Writing the segments of a query out again gives the query.
pub source-segments : (query : Text) → source (segments query) ≡ query
unfolding segments
source-segments query = source-scan query 0
