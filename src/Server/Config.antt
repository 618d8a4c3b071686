-- ===== src/Server/Config.antt =====
-- crates/pes-server/src/config.rs: `config.toml` and the environment variables it refers to. Texts are
-- UTF-8 bytes; the characters that are escaped are ASCII, so no other byte is one of them. The file
-- system, the environment and the TOML parser are arguments.
pub mod Escaping
pub mod Pieces
pub mod Expansion
pub mod Redaction
use prometheus_entity_sync.Base.{
  Text, codes, text_eq, Map, get, insert, Result, ok, err, map_err, ◌>>=◌, Option, none, some, List,
  [], ◌∷◌, ◌++◌, ℕ, zero, suc, ◌+◌, ◌/◌, ◌%◌, ltb, nat_beq, if◌then◌else◌, length, Bool, ◌||◌,
}
use prometheus_entity_sync.Rules.Template.{strip_prefix}

pub record ServerConfig : Type 0 where
  pub host : Text
  pub port : ℕ
  pub max_connections : ℕ

pub record PostgresConfig : Type 0 where
  pub url : Text
  pub max_pool_size : ℕ

pub data AuthConfig : Type 0 where
  hmac : Text → AuthConfig
  jwks : Text → AuthConfig

pub record OplogConfig : Type 0 where
  pub compaction_ttl_days : ℕ
  pub data_dir : Text

pub record SyncRulesConfig : Type 0 where
  pub path : Text

pub record MetricsConfig : Type 0 where
  pub port : ℕ

pub record Config : Type 0 where
  pub server : ServerConfig
  pub postgres : PostgresConfig
  pub auth : AuthConfig
  pub sync_rules : SyncRulesConfig
  pub metrics : MetricsConfig
  pub oplog : OplogConfig

pub data ConfigError : Type 0 where
  read : Text → Text → ConfigError
  missing_env_var : Text → ConfigError
  parse : Text → ConfigError

-- `{:X}` of a number below 16.
unfoldable pub hex_digit : ℕ → ℕ
hex_digit n = if ltb n 10 then 48 + n else 55 + n

-- `\u{:04X}`
unfoldable pub unicode_escape : ℕ → Text
unfolding hex_digit
unicode_escape c =
    b'\\'
    ∷ b'u'
    ∷ hex_digit (c / 4096)
    ∷ hex_digit (c / 256 % 16)
    ∷ hex_digit (c / 16 % 16)
    ∷ hex_digit (c % 16)
    ∷ []

unfoldable pub escape_char : ℕ → Text
unfolding unicode_escape
escape_char c =
    if nat_beq c b'\\'
    then b'\\' ∷ b'\\' ∷ []
    else if nat_beq c b'"'
    then b'\\' ∷ b'"' ∷ []
    else if nat_beq c b'\n'
    then b'\\' ∷ b'n' ∷ []
    else if nat_beq c b'\r'
    then b'\\' ∷ b'r' ∷ []
    else if nat_beq c b'\t'
    then b'\\' ∷ b't' ∷ []
    else if ltb c 0x20 || nat_beq c 0x7f
    then unicode_escape c
    else c ∷ []

unfoldable pub escape_toml_basic_string : Text → Text
unfolding escape_char
escape_toml_basic_string [] = []
escape_toml_basic_string (c ∷ value) = escape_char c ++ escape_toml_basic_string value

-- `find`, with what stands before the match and after it.
abbrev pub past : ℕ → Option (Text × Text) → Option (Text × Text)
past c none = none
past c (some (before, after)) = some (c ∷ before, after)

abbrev pub or_further : ℕ → Option (Text × Text) → Option Text → Option (Text × Text)
or_further c later none = past c later
or_further c later (some after) = some ([], after)

unfoldable pub split_at_first : Text → Text → Option (Text × Text)
unfolding strip_prefix
split_at_first marker [] = none
split_at_first marker (c ∷ s) = or_further c (split_at_first marker s) (strip_prefix marker (c ∷ s))

abbrev pub open_marker : Text
open_marker = b'$' ∷ b'{' ∷ []

abbrev pub close_marker : Text
close_marker = b'}' ∷ []

module _ (env_lookup : Text → Option Text) where
  abbrev pub Cache : Type 0
  Cache = Map Text Text

  -- The value of a variable, from the cache or else from the environment, and the cache.
  abbrev pub from_env : Text → Cache → Option Text → Result ConfigError (Text × Cache)
  from_env name cache none = err (missing_env_var name)
  from_env name cache (some value) = ok (value, insert cache name value)

  abbrev pub resolve : Text → Cache → Option Text → Result ConfigError (Text × Cache)
  resolve name cache (some cached) = ok (cached, cache)
  resolve name cache none = from_env name cache (env_lookup name)

  -- The loop on fuel; `none` says that the fuel ran out.
  abbrev pub go_on :
      (Cache → Text → Option (Result ConfigError Text))
      → Text
      → Result ConfigError (Text × Cache)
      → Option (Result ConfigError Text)
  go_on rest out (err e) = some (err e)
  go_on rest out (ok (value, cache)) = rest cache (out ++ escape_toml_basic_string value)

  abbrev pub closed :
      (Text → Cache → Text → Option (Result ConfigError Text))
      → Cache
      → Text
      → Text
      → Option (Text × Text)
      → Option (Result ConfigError Text)
  closed rest cache out after none = some (ok (out ++ (open_marker ++ after)))
  closed rest cache out after (some (name, after_close)) =
      go_on (λ cache' out'. rest after_close cache' out') out (resolve name cache (get cache name))

  abbrev pub opened :
      (Text → Cache → Text → Option (Result ConfigError Text))
      → Cache
      → Text
      → Text
      → Option (Text × Text)
      → Option (Result ConfigError Text)
  opened rest cache out input none = some (ok (out ++ input))
  opened rest cache out input (some (before, after)) =
      closed rest cache (out ++ before) after (split_at_first close_marker after)

  unfoldable pub interpolate_loop : ℕ → Text → Cache → Text → Option (Result ConfigError Text)
  unfolding split_at_first escape_toml_basic_string
  interpolate_loop zero rest cache out = none
  interpolate_loop (suc fuel) rest cache out =
      opened (interpolate_loop fuel) cache out rest (split_at_first open_marker rest)

  unfoldable pub interpolate_env_vars : Text → Option (Result ConfigError Text)
  unfolding interpolate_loop
  interpolate_env_vars input = interpolate_loop (length input + 1) input [] []

  -- `none` as for `interpolate_env_vars`.
  abbrev pub parsed :
      (Text → Result Text Config)
      → Option (Result ConfigError Text)
      → Option (Result ConfigError Config)
  parsed from_str none = none
  parsed from_str (some r) = some (r >>= λ text. map_err parse (from_str text))

  abbrev pub loaded :
      (Text → Result Text Config) → Text → Result Text Text → Option (Result ConfigError Config)
  loaded from_str path (err source) = some (err (read path source))
  loaded from_str path (ok raw) = parsed from_str (interpolate_env_vars raw)

  unfoldable pub load_config_with_env :
      (Text → Result Text Text)
      → (Text → Result Text Config)
      → Text
      → Option (Result ConfigError Config)
  unfolding interpolate_env_vars
  load_config_with_env read_to_string from_str path = loaded from_str path (read_to_string path)
