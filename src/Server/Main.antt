-- ===== src/Server/Main.antt =====
-- crates/pes-server/src/main.rs: `run`. What the process does to the outside is listed in order, also what
-- fails; what the calls return is an argument.
pub mod Turns
pub mod Order
pub mod Started
mod Tests
use prometheus_entity_sync.Base.{
  Text, codes, Result, ok, err, map_err, Option, none, some, List, [], ◌∷◌, ◌++◌, ℕ, ◌*◌, ◌%◌, true,
  nat_beq, if◌then◌else◌, decimal,
}
use prometheus_entity_sync.Oplog.Store.{u64_mod}
use prometheus_entity_sync.Rules.Template.{ParseError}
use prometheus_entity_sync.Rules.Parser.{RawDocument, parse_sync_rules}
use prometheus_entity_sync.Rules.Assigner.{BucketAssigner, new_assigner}
use prometheus_entity_sync.Router.Metrics.{RouterMetrics, new_metrics}
use prometheus_entity_sync.Gateway.Auth.{JwtValidationConfig, hmac_sha256, rs256_jwks}
use prometheus_entity_sync.Server.Config.{Config, AuthConfig, hmac, jwks}
use prometheus_entity_sync.Server.Health.{HealthState, pos}
use prometheus_entity_sync.Server.Shutdown.{Exit, drain_connections}

pub data Task : Type 0 where
  cdc_consumer router gateway_server health_server : Task

pub data Action : Type 0 where
  connect_postgres : Text → ℕ → Action
  create_dir_all : Text → Action
  open_log : Text → ℕ → Action
  listen_on : Text → Action
  spawn abort : Task → Action
  sleep_ms : ℕ → Action
  await_signal cancel_gateway stop_cdc : Action
  drained : Exit → Action

-- The file system, Postgres, the sockets, the signal, the TOML parser, and what the last loop reads.
pub record Outside : Type 0 where
  pub connect : Text → ℕ → Result Text (Unit {0})
  pub read_to_string : Text → Result Text Text
  pub toml_from_str : Text → Result (Text × Option ℕ) RawDocument
  pub display : ParseError → Text
  pub make_dir : Text → Result Text (Unit {0})
  pub open_redb : Text → ℕ → Result Text (Unit {0})
  pub listen : Text → Result Text (Unit {0})
  pub wait_for_sigterm : Result Text (Unit {0})
  pub connection_count : ℕ → ℕ
  pub now_ms : ℕ → ℕ
  pub signalled_at : ℕ

abbrev pub Boot : Type 0 → Type 0
Boot A = List Action → Result Text A × List Action

abbrev pub continue_boot :
    {A B : Type 0} → Result Text A × List Action → (A → Boot B) → Result Text B × List Action
continue_boot (ok a, actions) f = f a actions
continue_boot (err e, actions) f = (err e, actions)

infixl 5 ◌>>=◌ ◌>>◌
abbrev pub ◌>>=◌ : {A B : Type 0} → Boot A → (A → Boot B) → Boot B
m >>= f = λ actions. continue_boot (m actions) f

abbrev pub ◌>>◌ : {B : Type 0} → Boot (Unit {0}) → Boot B → Boot B
m >> k = m >>= λ _. k

abbrev pub pure : {A : Type 0} → A → Boot A
pure a actions = (ok a, actions)

abbrev pub lift : {A : Type 0} → Result Text A → Boot A
lift r actions = (r, actions)

abbrev pub tries : Action → Result Text (Unit {0}) → Boot (Unit {0})
tries action r actions = (r, actions ++ action ∷ [])

abbrev pub does : Action → Boot (Unit {0})
does action = tries action (ok tt)

-- `Path::join` of a relative name.
unfoldable pub join : Text → Text → Text
join [] name = name
join (c ∷ []) name = if nat_beq c b'/' then c ∷ name else c ∷ b'/' ∷ name
join (c ∷ d ∷ dir) name = c ∷ join (d ∷ dir) name

unfoldable pub jwt_config : AuthConfig → JwtValidationConfig
jwt_config (hmac secret) = hmac_sha256 secret
jwt_config (jwks jwks_url) = rs256_jwks jwks_url

-- The multiplications wrap, as release builds do.
unfoldable pub ttl_secs : ℕ → ℕ
ttl_secs days = days * 24 % u64_mod * 60 % u64_mod * 60 % u64_mod

abbrev pub address : Text → ℕ → Text
address host port = host ++ (codes ":" ++ decimal port)

-- What the tasks share.
pub record Services : Type 0 where
  pub assigner : BucketAssigner
  pub jwt : JwtValidationConfig
  pub max_connections : ℕ
  pub health_state : HealthState

module _ (o : Outside) (config : Config) where
  abbrev pub services_of : BucketAssigner → Services
  services_of assigner = record {
    assigner = assigner;
    jwt = jwt_config config.auth;
    max_connections = config.server.max_connections;
    health_state = record {
      connection_count = 0;
      router_metrics = new_metrics;
      wal_replication_active = true;
      lag_ms = pos 0;
    };
  }

  -- Up to the wait for the signal, in three parts.
  unfoldable pub serve_sockets : BucketAssigner → Boot Services
  serve_sockets assigner = do
    tries (listen_on (address config.server.host config.server.port))
        (o.listen (address config.server.host config.server.port))
    does (spawn gateway_server)
    tries (listen_on (address config.server.host config.metrics.port))
        (o.listen (address config.server.host config.metrics.port))
    does (spawn health_server)
    pure (services_of assigner)

  abbrev pub log_path : Text
  log_path = join config.oplog.data_dir (codes "oplog.redb")

  unfoldable pub open_and_pipe : BucketAssigner → Boot Services
  unfolding serve_sockets join ttl_secs jwt_config
  open_and_pipe assigner = do
    tries (create_dir_all config.oplog.data_dir) (o.make_dir config.oplog.data_dir)
    tries (open_log log_path (ttl_secs config.oplog.compaction_ttl_days))
        (o.open_redb log_path (ttl_secs config.oplog.compaction_ttl_days))
    does (spawn cdc_consumer)
    does (spawn router)
    does (sleep_ms 500)
    serve_sockets assigner

  unfoldable pub start_up : Boot Services
  unfolding new_assigner open_and_pipe
  start_up = do
    tries (connect_postgres config.postgres.url config.postgres.max_pool_size)
        (o.connect config.postgres.url config.postgres.max_pool_size)
    rule_set ← lift (
        map_err o.display
          (parse_sync_rules o.toml_from_str o.read_to_string config.sync_rules.path))
    assigner ← lift (map_err o.display (new_assigner rule_set 3600))
    open_and_pipe assigner

  -- `none`: the fuel of the wait ran out.
  abbrev pub abort_all : Option Exit → Boot (Option Exit)
  abort_all none = pure none
  abort_all (some exit) = do
    does (drained exit)
    does (abort health_server)
    does (abort gateway_server)
    does (abort router)
    does (abort cdc_consumer)
    pure (some exit)

  unfoldable pub shut_down : Boot (Option Exit)
  unfolding drain_connections
  shut_down = do
    tries await_signal o.wait_for_sigterm
    does cancel_gateway
    does stop_cdc
    abort_all (drain_connections o.connection_count o.now_ms o.signalled_at)

  unfoldable pub run : Boot (Option Exit)
  unfolding start_up shut_down
  run = start_up >>= λ _. shut_down
