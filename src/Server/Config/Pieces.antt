-- ===== src/Server/Config/Pieces.antt =====
-- crates/pes-server/src/config.rs: a text as pieces, between which the loop of `interpolate_env_vars` finds
-- the references.
use prometheus_entity_sync.Base.{
  Text, text_eq, Result, ok, ◌>>=◌, ok_or, Option, none, some, List, [], ◌∷◌, ◌++◌, ℕ, ◌<◌, nat_beq,
  if◌then◌else◌, length, true, false, ◌&&◌, Bool-cases, ◌≡◌, refl, sym, ap, ◌∙◌, inl, inr, arith,
}
use mathlib.Core.List.{append_assoc, append-nil}
use prometheus_entity_sync.Rules.Template.{strip_prefix}
use prometheus_entity_sync.Server.Config.{
  ConfigError, missing_env_var, escape_toml_basic_string, past, split_at_first, open_marker,
  close_marker,
}

pub data Piece : Type 0 where
  literal : ℕ → Piece
  variable : Text → Piece

abbrev pub literals : Text → List Piece → List Piece
literals [] ps = ps
literals (c ∷ s) ps = literal c ∷ literals s ps

-- Outside of a reference, and inside of one with the name read so far. A reference that is not closed
-- is text.
mutual
  pub outside_reference : Text → List Piece
  outside_reference [] = []
  outside_reference (c ∷ []) = literal c ∷ []
  outside_reference (c ∷ d ∷ s) =
      if nat_beq c b'$' && nat_beq d b'{'
      then inside_reference [] s
      else literal c ∷ outside_reference (d ∷ s)

  pub inside_reference : Text → Text → List Piece
  inside_reference name [] = literals (open_marker ++ name) []
  inside_reference name (c ∷ s) =
      if nat_beq c b'}'
      then variable name ∷ outside_reference s
      else inside_reference (name ++ c ∷ []) s

-- The first variable that is not set is an error.
unfoldable pub expand : (Text → Option Text) → List Piece → Result ConfigError Text
expand env_lookup [] = ok []
expand env_lookup (literal c ∷ ps) = expand env_lookup ps >>= λ rest. ok (c ∷ rest)
expand env_lookup (variable name ∷ ps) = ok_or (env_lookup name) (missing_env_var name) >>= λ value.
    expand env_lookup ps >>= λ rest. ok (escape_toml_basic_string value ++ rest)

-- What `find` says of the first character.
no_open :
    (c d : ℕ) (s : Text)
    → (nat_beq c b'$' && nat_beq d b'{') ≡ false
    → strip_prefix open_marker (c ∷ d ∷ s) ≡ none
unfolding strip_prefix
no_open c d s h = ground arith

at_open :
    (c d : ℕ) (s : Text)
    → (nat_beq c b'$' && nat_beq d b'{') ≡ true
    → strip_prefix open_marker (c ∷ d ∷ s) ≡ some s
unfolding strip_prefix
at_open c d s h = ground arith

-- A text up to its first reference.
abbrev pub BeginsAt : Text → List Piece → Option (Text × Text) → Type 0
BeginsAt s ps none = ps ≡ literals s []
BeginsAt s ps (some (before, after)) =
    (ps ≡ literals before (inside_reference [] after)) × (length after < length s)

past-BeginsAt :
    (c : ℕ) (s : Text) (ps : List Piece) (o : Option (Text × Text))
    → BeginsAt s ps o
    → BeginsAt (c ∷ s) (literal c ∷ ps) (past c o)
past-BeginsAt c s ps none h = ap (λ x. literal c ∷ x) h
past-BeginsAt c s ps (some (before, after)) (e, lt) = (ap (λ x. literal c ∷ x) e, omega (arith, lt))

lone : (c : ℕ) → strip_prefix open_marker (c ∷ []) ≡ none
unfolding strip_prefix
lone c = ground arith

pub outside-BeginsAt : (s : Text) → BeginsAt s (outside_reference s) (split_at_first open_marker s)
unfolding outside_reference split_at_first
outside-BeginsAt [] = refl
outside-BeginsAt (c ∷ []) = rw (lone c) refl
outside-BeginsAt (c ∷ d ∷ s) = elim (Bool-cases (nat_beq c b'$' && nat_beq d b'{')) [
  | inl here ↦ rw (here, at_open c d s here) (refl, omega arith)
  | inr later ↦
      rw (later, no_open c d s later)
        (past-BeginsAt c (d ∷ s) (outside_reference (d ∷ s)) (split_at_first open_marker (d ∷ s))
          (outside-BeginsAt (d ∷ s)))
]

-- A name up to its closing brace.
abbrev pub EndsAt : Text → Text → List Piece → Option (Text × Text) → Type 0
EndsAt name s ps none = ps ≡ literals (open_marker ++ (name ++ s)) []
EndsAt name s ps (some (before, after)) =
    (ps ≡ variable (name ++ before) ∷ outside_reference after) × (length after < length s)

past-EndsAt :
    (c : ℕ) (name s : Text) (ps : List Piece) (o : Option (Text × Text))
    → EndsAt (name ++ c ∷ []) s ps o
    → EndsAt name (c ∷ s) ps (past c o)
past-EndsAt c name s ps none h =
    h ∙ ap (λ x. literals (open_marker ++ x) []) (append_assoc name (c ∷ []) s)
past-EndsAt c name s ps (some (before, after)) (e, lt) = (
  e ∙ ap (λ x. variable x ∷ outside_reference after) (append_assoc name (c ∷ []) before),
  omega (arith, lt),
)

pub inside-EndsAt :
    (name s : Text) → EndsAt name s (inside_reference name s) (split_at_first close_marker s)
unfolding inside_reference split_at_first strip_prefix
inside-EndsAt name [] = ap (λ x. literals (open_marker ++ x) []) (sym (append-nil name))
inside-EndsAt name (c ∷ s) = elim (Bool-cases (nat_beq c b'}')) [
  | inl here ↦
      rw here (ap (λ x. variable x ∷ outside_reference s) (sym (append-nil name)), omega arith)
  | inr later ↦ rw later (
      past-EndsAt c name s (inside_reference (name ++ c ∷ []) s) (split_at_first close_marker s)
        (inside-EndsAt (name ++ c ∷ []) s))
]
