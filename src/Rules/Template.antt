-- ===== src/Rules/Template.antt =====
-- crates/pes-rules/src/template.rs: substitution of `{bucket_parameters.X}` references. A match of
-- the regular expression is found by a scan from the left; a name is the longest run of its class,
-- since `}` is not in the class.
pub mod Source
pub mod Safety
use prometheus_entity_sync.Base.{
  Text, codes, text_eq, Map, get, length, take, drop, all_test, ltb, leb, nat_beq, if◌then◌else◌, ℕ,
  zero, suc, ◌+◌, ◌==◌, Bool, true, false, ◌&&◌, Option, none, some, List, [], ◌∷◌, ◌++◌, Result,
  ok, err, ◌>>=◌, ◌>>◌,
}
use prometheus_entity_sync.Rules.Chars.{is_name_char, is_safe_char}

-- error.rs, `ParseError`; an I/O error and the message of the TOML parser are kept as texts.
pub data ParseError : Type 0 where
  io : Text → Text → ParseError
  syntax : Text → Option ℕ → Option ℕ → ParseError
  validation : Text → Text → ParseError

-- `^[a-zA-Z0-9_-]{1,128}$`
unfoldable pub validate_safe_value : Text → Bool
unfolding is_safe_char
validate_safe_value value =
    all_test is_safe_char value && (leb 1 (length value) && leb (length value) 128)

abbrev pub open_ref : Text
open_ref = codes "{bucket_parameters."

-- The text without a given prefix.
unfoldable pub strip_prefix : Text → Text → Option Text
strip_prefix [] s = some s
strip_prefix (p ∷ ps) [] = none
strip_prefix (p ∷ ps) (c ∷ s) = if nat_beq c p then strip_prefix ps s else none

-- The longest run of name characters.
unfoldable pub name_run : Text → Text
unfolding is_name_char
name_run [] = []
name_run (c ∷ s) = if is_name_char c then c ∷ name_run s else []

abbrev closes : Text → Bool
closes [] = false
closes (c ∷ s) = nat_beq c b'}'

abbrev named : Text → Text → Option Text
named [] rest = none
named (c ∷ name) rest = if closes rest then some (c ∷ name) else none

abbrev after_open : Option Text → Option Text
after_open none = none
after_open (some s) = named (name_run s) (drop (length (name_run s)) s)

-- The name of a reference that begins the text.
unfoldable pub match_ref : Text → Option Text
unfolding strip_prefix name_run
match_ref s = after_open (strip_prefix open_ref s)

-- A template is text and references in turn.
pub data Segment : Type 0 where
  literal : ℕ → Segment
  reference : Text → Segment

-- `{bucket_parameters.` and `}` are 20 characters; the first of them is the one at hand.
abbrev scanned : Option Text → ℕ → (ℕ → List Segment) → List Segment
scanned none c rest = literal c ∷ rest 0
scanned (some name) c rest = reference name ∷ rest (length name + 19)

-- Matches do not overlap: those characters of a match that are left are skipped.
unfoldable pub scan : Text → ℕ → List Segment
unfolding match_ref
scan [] skip = []
scan (c ∷ s) (suc skip) = scan s skip
scan (c ∷ s) zero = scanned (match_ref (c ∷ s)) c (scan s)

unfoldable pub segments : Text → List Segment
unfolding scan
segments query = scan query 0

-- `captures_iter`: the names of the references, in order.
unfoldable pub captures : List Segment → List Text
captures [] = []
captures (literal c ∷ segs) = captures segs
captures (reference name ∷ segs) = name ∷ captures segs

abbrev pub unwrap_or_default : Option Text → Text
unwrap_or_default none = []
unwrap_or_default (some v) = v

abbrev pub quoted : Text → Text
quoted value = b'\'' ∷ (value ++ b'\'' ∷ [])

-- `replace_all` with the closure that quotes the value.
unfoldable pub render : Map Text Text → List Segment → Text
render resolved [] = []
render resolved (literal c ∷ segs) = c ∷ render resolved segs
render resolved (reference name ∷ segs) =
    quoted (unwrap_or_default (get resolved name)) ++ render resolved segs

pub unresolved_message : Text → Text
unresolved_message name =
    codes "template references unresolved parameter 'bucket_parameters." ++ (name ++ codes "'")

pub unsafe_message : Text → Text
unsafe_message name =
    codes "value for parameter '"
    ++ (name ++ codes "' failed the safe-value allowlist (must match [a-zA-Z0-9_-]{1,128})")

unfoldable pub check_value : Text → Text → Option Text → Result ParseError (Unit {0})
check_value bucket_id name none = err (validation bucket_id (unresolved_message name))
check_value bucket_id name (some value) =
    if validate_safe_value value then ok tt else err (validation bucket_id (unsafe_message name))

-- The first pass.
unfoldable pub check_captures : Text → Map Text Text → List Text → Result ParseError (Unit {0})
unfolding check_value
check_captures bucket_id resolved [] = ok tt
check_captures bucket_id resolved (name ∷ names) = do
  check_value bucket_id name (get resolved name)
  check_captures bucket_id resolved names

unfoldable pub substitute : Text → Text → Map Text Text → Result ParseError Text
unfolding segments captures check_captures render
substitute bucket_id query resolved = do
  let segs = segments query
  check_captures bucket_id resolved (captures segs)
  ok (render resolved segs)
