-- ===== src/Server/Tests.antt =====
-- crates/pes-server/src/config.rs on small texts.
use prometheus_entity_sync.Base.{
  Text, codes, text_eq, Option, none, some, [], ◌∷◌, ◌++◌, false, if◌then◌else◌, ◌==◌, ◌≡◌, refl,
}
use prometheus_entity_sync.Server.Config.{
  Config, hmac, escape_toml_basic_string, interpolate_env_vars,
}
use prometheus_entity_sync.Server.Config.Escaping.{
  Denotes, until_quote, escape_toml_basic_string-Denotes,
}
use prometheus_entity_sync.Server.Config.Pieces.{expand, outside_reference}
use prometheus_entity_sync.Server.Config.Expansion.{interpolate_env_vars-expand}
use prometheus_entity_sync.Server.Config.Redaction.{debug_config, debug_config_noninterference}

-- `a"b`
abbrev value : Text
value = b'a' ∷ b'"' ∷ b'b' ∷ []

escape_toml_basic_string-Denotes_example :
    Denotes (escape_toml_basic_string value) value
    × (until_quote false (escape_toml_basic_string value ++ b'"' ∷ codes " # x")
        ≡ some (escape_toml_basic_string value, codes " # x"))
escape_toml_basic_string-Denotes_example = escape_toml_basic_string-Denotes value (codes " # x")

abbrev env : Text → Option Text
env name = if name == codes "SECRET" then some value else none

interpolate_env_vars-expand_example :
    interpolate_env_vars env (codes "x=\"${SECRET}\" ${")
    ≡ some (expand env (outside_reference (codes "x=\"${SECRET}\" ${")))
interpolate_env_vars-expand_example = interpolate_env_vars-expand env (codes "x=\"${SECRET}\" ${")

abbrev config : Text → Text → Config
config url secret = record {
  server = record { host = codes "0.0.0.0"; port = 8080; max_connections = 10 };
  postgres = record { url = url; max_pool_size = 5 };
  auth = hmac secret;
  sync_rules = record { path = codes "rules.toml" };
  metrics = record { port = 9090 };
  oplog = record { compaction_ttl_days = 7; data_dir = codes "data" };
}

debug_config_noninterference_example :
    debug_config (config (codes "postgres://a") (codes "s1"))
    ≡ debug_config (config (codes "postgres://b") (codes "s2"))
debug_config_noninterference_example =
    debug_config_noninterference (config (codes "postgres://a") (codes "s1"))
      (config (codes "postgres://b") (codes "s2")) refl
