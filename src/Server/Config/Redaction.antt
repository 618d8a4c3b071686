-- ===== src/Server/Config/Redaction.antt =====
-- crates/pes-server/src/config.rs: the `Debug` output of the configuration. What `debug_struct` makes
-- of a name and fields is a tree here, which it writes out.
use prometheus_entity_sync.Base.{Text, codes, ℕ, [], ◌≡◌, refl, sym, ap, ◌∙◌}
use prometheus_entity_sync.Server.Config.{
  Config, ServerConfig, PostgresConfig, AuthConfig, hmac, jwks, OplogConfig,
}

mutual
  pub data DebugTree : Type 0 where
    debug_text : Text → DebugTree
    debug_number : ℕ → DebugTree
    debug_struct : Text → DebugFields → DebugTree

  pub data DebugFields : Type 0 where
    finish : DebugFields
    debug_field : Text → DebugTree → DebugFields → DebugFields

abbrev redacted : DebugTree
redacted = debug_text (codes "[REDACTED]")

unfoldable pub debug_auth : AuthConfig → DebugTree
debug_auth (hmac secret) =
    debug_struct (codes "Hmac") (debug_field (codes "secret") redacted finish)
debug_auth (jwks jwks_url) =
    debug_struct (codes "Jwks") (debug_field (codes "jwks_url") (debug_text jwks_url) finish)

unfoldable pub debug_postgres : PostgresConfig → DebugTree
debug_postgres c = debug_struct (codes "PostgresConfig") (
    debug_field (codes "url") redacted
      (debug_field (codes "max_pool_size") (debug_number c.max_pool_size) finish))

-- Derived.
abbrev debug_server : ServerConfig → DebugTree
debug_server c = debug_struct (codes "ServerConfig") (
    debug_field (codes "host") (debug_text c.host) (
      debug_field (codes "port") (debug_number c.port)
        (debug_field (codes "max_connections") (debug_number c.max_connections) finish)))

abbrev debug_oplog : OplogConfig → DebugTree
debug_oplog c = debug_struct (codes "OplogConfig") (
    debug_field (codes "compaction_ttl_days") (debug_number c.compaction_ttl_days)
      (debug_field (codes "data_dir") (debug_text c.data_dir) finish))

unfoldable pub debug_config : Config → DebugTree
unfolding debug_auth debug_postgres
debug_config c = debug_struct (codes "Config") (
    debug_field (codes "server") (debug_server c.server) (
      debug_field (codes "postgres") (debug_postgres c.postgres) (
        debug_field (codes "auth") (debug_auth c.auth) (
          debug_field (codes "sync_rules")
            (debug_struct (codes "SyncRulesConfig")
              (debug_field (codes "path") (debug_text c.sync_rules.path) finish))
            (debug_field (codes "metrics")
              (debug_struct (codes "MetricsConfig")
                (debug_field (codes "port") (debug_number c.metrics.port) finish))
              (debug_field (codes "oplog") (debug_oplog c.oplog) finish))))))

abbrev no_secret : AuthConfig → AuthConfig
no_secret (hmac secret) = hmac []
no_secret (jwks jwks_url) = jwks jwks_url

-- The configuration without the database's URL and the shared secret.
abbrev pub without_secrets : Config → Config
without_secrets c = record c {
  postgres = record { url = []; max_pool_size = c.postgres.max_pool_size };
  auth = no_secret c.auth;
}

debug_auth-no_secret : (a : AuthConfig) → debug_auth (no_secret a) ≡ debug_auth a
unfolding debug_auth
debug_auth-no_secret (hmac secret) = refl
debug_auth-no_secret (jwks jwks_url) = refl

debug_config-without_secrets : (c : Config) → debug_config (without_secrets c) ≡ debug_config c
unfolding debug_config debug_postgres
debug_config-without_secrets c = rw (debug_auth-no_secret c.auth) refl

-- Two configurations that differ in the database's URL or in the shared secret only have the same
-- `Debug` output.
pub debug_config_noninterference :
    (c d : Config) → without_secrets c ≡ without_secrets d → debug_config c ≡ debug_config d
debug_config_noninterference c d h =
    sym (debug_config-without_secrets c) ∙ ap debug_config h ∙ debug_config-without_secrets d
