-- ===== src/Server/Main/Order.antt =====
-- crates/pes-server/src/main.rs: in which order the process starts and ends.
use prometheus_entity_sync.Base.{
  Text, Result, ok, err, map_err, Option, List, [], ◌∷◌, ◌++◌, ℕ, All, EmitsAt, EmitsAt-none,
  EmitsAt-one, EmitsAt-append, ok-injective, Result-cases, ◌≡◌, refl, ap, inl, inr,
}
use prometheus_entity_sync.Rules.Template.{ParseError}
use prometheus_entity_sync.Rules.Parser.{SyncRuleSet, parse_sync_rules}
use prometheus_entity_sync.Rules.Validator.{validate}
use prometheus_entity_sync.Rules.Validator.Sound.{IsValidRule, validate_iff}
use prometheus_entity_sync.Rules.Assigner.{BucketAssigner, new_assigner}
use prometheus_entity_sync.Server.Config.{Config}
use prometheus_entity_sync.Server.Shutdown.{Exit}
use prometheus_entity_sync.Server.Main.{
  cdc_consumer, router, gateway_server, health_server, Action, connect_postgres, create_dir_all,
  open_log, listen_on, spawn, sleep_ms, Outside, ttl_secs, address, log_path, serve_sockets,
  open_and_pipe, start_up, shut_down, run, Services,
}
use prometheus_entity_sync.Server.Main.Turns.{
  HasValidRules, IsInTurn, continue-InTurn, tried, shut_down-InTurn,
}

module _ (o : Outside) (config : Config) where
  map_err-ok :
      {A : Type 0} (f : ParseError → Text) (r : Result ParseError A) (a : A)
      → map_err f r ≡ ok a
      → r ≡ ok a
  map_err-ok f (ok x) a h = ap ok (ok-injective h)
  map_err-ok f (err e) a h = cc

  new_assigner-valid :
      (rule_set : SyncRuleSet) (ttl : ℕ) (a : BucketAssigner)
      → new_assigner rule_set ttl ≡ ok a
      → All (λ e. IsValidRule e.0 e.1) rule_set.rules
  unfolding new_assigner
  new_assigner-valid rule_set ttl a h = elim (Result-cases (validate rule_set)) [
    | inl (u, good) ↦ (validate_iff rule_set).0 good
    | inr (e, bad) ↦ cc (rw (bad, new_assigner) at h)
  ]

  abbrev connecting : Action
  connecting = connect_postgres config.postgres.url config.postgres.max_pool_size

  abbrev making : Action
  making = create_dir_all config.oplog.data_dir

  abbrev opening : Action
  opening = open_log (log_path o config) (ttl_secs config.oplog.compaction_ttl_days)

  abbrev binding_gateway : Action
  binding_gateway = listen_on (address config.server.host config.server.port)

  abbrev binding_metrics : Action
  binding_metrics = listen_on (address config.server.host config.metrics.port)

  -- The log is open and the pipeline runs.
  abbrev piped : List Action
  piped = connecting ∷ making ∷ opening ∷ spawn cdc_consumer ∷ spawn router ∷ sleep_ms 500 ∷ []

  gateway-InTurn :
      (HasValidRules o config)
      → o.open_redb (log_path o config) (ttl_secs config.oplog.compaction_ttl_days) ≡ ok tt
      → (IsInTurn o config) (piped ++ binding_gateway ∷ []) (spawn gateway_server)
  gateway-InTurn rules opened = (
    rules,
    (log_path o config, ttl_secs config.oplog.compaction_ttl_days, inr (inr (inl refl)), opened),
    inr (inr (inr (inl refl))),
    inr (inr (inr (inr (inl refl)))),
  )

  serve_sockets-InTurn :
      (a : BucketAssigner)
      → (HasValidRules o config)
      → o.open_redb (log_path o config) (ttl_secs config.oplog.compaction_ttl_days) ≡ ok tt
      → EmitsAt (IsInTurn o config) piped (serve_sockets o config a piped).1
  unfolding serve_sockets
  serve_sockets-InTurn a rules opened =
      tried o config {B = Services} piped binding_gateway
        (o.listen (address config.server.host config.server.port)) _ tt
        (λ bound.
          EmitsAt-append (IsInTurn o config) (piped ++ binding_gateway ∷ [])
            (piped ++ binding_gateway ∷ spawn gateway_server ∷ []) _
            (spawn gateway_server ∷ [], refl, (gateway-InTurn rules opened, tt))
            (tried o config {B = Services} (piped ++ binding_gateway ∷ spawn gateway_server ∷ [])
              binding_metrics (o.listen (address config.server.host config.metrics.port)) _ tt
              (λ bound'.
                EmitsAt-one (IsInTurn o config)
                  (piped ++ binding_gateway ∷ spawn gateway_server ∷ binding_metrics ∷ [])
                  (spawn health_server) tt)))

  open_and_pipe-InTurn :
      (a : BucketAssigner)
      → (HasValidRules o config)
      → EmitsAt (IsInTurn o config) (connecting ∷ []) (open_and_pipe o config a (connecting ∷ [])).1
  unfolding open_and_pipe
  open_and_pipe-InTurn a rules =
      tried o config {B = Services} (connecting ∷ []) making (o.make_dir config.oplog.data_dir) _ tt
        (λ made.
          tried o config {B = Services} (connecting ∷ making ∷ []) opening
            (o.open_redb (log_path o config) (ttl_secs config.oplog.compaction_ttl_days)) _ tt
            (λ opened.
              EmitsAt-append (IsInTurn o config) (connecting ∷ making ∷ opening ∷ []) piped _
                (spawn cdc_consumer ∷ spawn router ∷ sleep_ms 500 ∷ [], refl, (tt, (tt, (tt, tt))))
                (serve_sockets-InTurn a rules opened)))

  start_up-InTurn : EmitsAt (IsInTurn o config) [] (start_up o config []).1
  unfolding start_up
  start_up-InTurn =
      tried o config {B = Services} [] connecting
        (o.connect config.postgres.url config.postgres.max_pool_size) _ tt
        (λ connected.
          continue-InTurn o config {B = Services} (connecting ∷ [])
            (
              map_err o.display
                  (parse_sync_rules o.toml_from_str o.read_to_string config.sync_rules.path),
              connecting ∷ [],
            )
            _ (EmitsAt-none (IsInTurn o config) (connecting ∷ []))
            (λ rule_set parsed.
              continue-InTurn o config {B = Services} (connecting ∷ [])
                (map_err o.display (new_assigner rule_set 3600), connecting ∷ []) _
                (EmitsAt-none (IsInTurn o config) (connecting ∷ []))
                (λ a built. open_and_pipe-InTurn a (
                  rule_set,
                  map_err-ok o.display _ rule_set parsed,
                  new_assigner-valid rule_set 3600 a (map_err-ok o.display _ a built),
                ))))

  -- Whatever fails, the process starts the gateway only under rules that were read from the file
  -- and keep the documented conditions, after the log was opened and the tasks of the pipeline were
  -- started; and it aborts its tasks only after it has told the gateway to close and the wait for the
  -- open connections has come to its end.
  pub run-InTurn : EmitsAt (IsInTurn o config) [] (run o config []).1
  unfolding run
  run-InTurn =
      continue-InTurn o config {B = Option Exit} [] (start_up o config []) (λ _. shut_down o config)
        start_up-InTurn (λ services started. shut_down-InTurn o config (start_up o config []).1)
