-- ===== src/Server/Main/Tests.antt =====
-- A process with one rule, in a world where every call succeeds.
use prometheus_entity_sync.Base.{
  codes, text_eq, ok, none, some, [], ◌∷◌, ℕ, ◌+◌, ◌*◌, EmitsAt, All, ◌≡◌, refl, arith,
}
use prometheus_entity_sync.Rules.Parser.{RawBucket, RawDocument, SyncRuleSet}
use prometheus_entity_sync.Rules.Validator.Sound.{IsValidRule}
use prometheus_entity_sync.Server.Config.{Config, hmac}
use prometheus_entity_sync.Server.Shutdown.{exit_of}
use prometheus_entity_sync.Server.Main.{Outside, run}
use prometheus_entity_sync.Server.Main.Turns.{IsInTurn}
use prometheus_entity_sync.Server.Main.Order.{run-InTurn}
use prometheus_entity_sync.Server.Main.Started.{Succeeds, run_total}

abbrev config : Config
config = record {
  server = record { host = codes "0.0.0.0"; port = 8080; max_connections = 10 };
  postgres = record { url = codes "postgres://db"; max_pool_size = 5 };
  auth = hmac (codes "secret");
  sync_rules = record { path = codes "rules.toml" };
  metrics = record { port = 9090 };
  oplog = record { compaction_ttl_days = 7; data_dir = codes "data" };
}

abbrev document : RawDocument
document = record {
  version = some (codes "1");
  buckets = some (
      (
        codes "todos",
        record {
          description = none;
          parameters = none;
          parameter_queries = none;
          data_queries = some ((codes "todos", codes "SELECT * FROM todos") ∷ []);
        },
      )
      ∷ []);
}

abbrev rule_set : SyncRuleSet
rule_set = record {
  version = codes "1";
  rules =
      (
        codes "todos",
        record {
          id = codes "todos";
          description = none;
          parameters = [];
          parameter_queries = [];
          data_queries = (codes "todos", codes "SELECT * FROM todos") ∷ [];
        },
      )
      ∷ [];
}

abbrev outside : Outside
outside = record {
  connect = λ url size. ok tt;
  read_to_string = λ path. ok [];
  toml_from_str = λ contents. ok document;
  display = λ e. [];
  make_dir = λ dir. ok tt;
  open_redb = λ path ttl. ok tt;
  listen = λ addr. ok tt;
  wait_for_sigterm = ok tt;
  connection_count = λ k. 0;
  now_ms = λ k. 100 * k;
  signalled_at = 0;
}

run-InTurn_example : EmitsAt (IsInTurn outside config) [] (run outside config []).1
run-InTurn_example = run-InTurn outside config

all_succeed : Succeeds outside config rule_set
unfolding prometheus_entity_sync.Rules.Parser.parse_sync_rules
all_succeed = record {
  connected = refl;
  parsed = refl;
  made = refl;
  opened = refl;
  gateway_bound = refl;
  metrics_bound = refl;
}

rules-IsValid : All (λ e. IsValidRule e.0 e.1) rule_set.rules
unfolding prometheus_entity_sync.Rules.Validator.is_bucket_id
    prometheus_entity_sync.Rules.Template.captures prometheus_entity_sync.Rules.Template.segments
rules-IsValid = (record { id = refl; queries = tt; dollar_one = tt; references = (tt, tt) }, tt)

run_total_example :
    (k : ℕ) × ((run outside config []).0 ≡ ok (some (exit_of (outside.connection_count (k + 1)))))
run_total_example =
    run_total outside config rule_set all_succeed rules-IsValid refl (λ k. omega arith)
      (omega arith)
