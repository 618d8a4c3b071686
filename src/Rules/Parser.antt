-- ===== src/Rules/Parser.antt =====
-- crates/pes-rules/src/parser.rs and error.rs: from a TOML document to a rule set. The TOML parser
-- is an argument; an error of it has a message and the start of its span.
use prometheus_entity_sync.Base.{
  Text, codes, Map, Option, none, some, Result, ok, err, List, [], ◌∷◌, map, ℕ, ◌+◌, ltb, nat_beq,
  if◌then◌else◌, length, take, Bool, not, ◌&&◌, leb,
}
use prometheus_entity_sync.Core.{SyncRule}
use prometheus_entity_sync.Rules.Template.{ParseError, syntax, io}

pub record SyncRuleSet : Type 0 where
  pub version : Text
  pub rules : Map Text SyncRule

-- `RawDocument` and `RawBucket`, with their `serde(default)`s: a field left out of the document.
pub record RawBucket : Type 0 where
  pub description : Option Text
  pub parameters : Option (List Text)
  pub parameter_queries : Option (Map Text Text)
  pub data_queries : Option (Map Text Text)

pub record RawDocument : Type 0 where
  pub version : Option Text
  pub buckets : Option (Map Text RawBucket)

abbrev pub or_default {ℓ} : {A : Type ℓ} → A → Option A → A
or_default d none = d
or_default d (some a) = a

pub default_version : Text
default_version = codes "1"

unfoldable pub to_rule : Text → RawBucket → SyncRule
to_rule id bucket = record {
  id = id;
  description = bucket.description;
  parameters = or_default [] bucket.parameters;
  parameter_queries = or_default [] bucket.parameter_queries;
  data_queries = or_default [] bucket.data_queries;
}

-- A character begins at every byte that continues none.
abbrev starts_char : ℕ → Bool
starts_char byte = not (leb 128 byte && leb byte 191)

line_col : Text → ℕ → ℕ → ℕ × ℕ
line_col [] line col = (line, col)
line_col (c ∷ s) line col =
    let newline = nat_beq c b'\n' in
    line_col s (if newline then line + 1 else line)
      (if newline then 1 else if starts_char c then col + 1 else col)

abbrev positioned : ℕ × ℕ → Option ℕ × Option ℕ
positioned (line, col) = (some line, some col)

pub offset_to_line_col : Text → ℕ → Option ℕ × Option ℕ
unfolding line_col
offset_to_line_col source offset =
    if ltb (length source) offset
    then (none, none)
    else positioned (line_col (take offset source) 1 1)

abbrev at_span : Text → Option ℕ → Option ℕ × Option ℕ
at_span source none = (none, none)
at_span source (some start) = offset_to_line_col source start

pub from_toml_error : Text → Option ℕ → Text → ParseError
unfolding offset_to_line_col
from_toml_error message span source =
    let (line, column) = at_span source span in syntax message line column

module _ (toml_from_str : Text → Result (Text × Option ℕ) RawDocument) where
  from_document : Text → Result (Text × Option ℕ) RawDocument → Result ParseError SyncRuleSet
  unfolding to_rule default_version
  from_document contents (err (message, span)) = err (from_toml_error message span contents)
  from_document contents (ok raw) = ok (record {
    version = or_default default_version raw.version;
    rules = map (λ (e : Text × RawBucket). (e.0, to_rule e.0 e.1)) (or_default [] raw.buckets);
  })

  unfoldable pub parse_sync_rules_str : Text → Result ParseError SyncRuleSet
  unfolding from_document
  parse_sync_rules_str contents = from_document contents (toml_from_str contents)

  -- The file system answers with the contents, or with the message of an I/O error.
  unfoldable pub parse_sync_rules : (Text → Result Text Text) → Text → Result ParseError SyncRuleSet
  unfolding parse_sync_rules_str
  parse_sync_rules read_to_string path = elim (read_to_string path) [
    | ok contents ↦ parse_sync_rules_str contents
    | err source ↦ err (io path source)
  ]
