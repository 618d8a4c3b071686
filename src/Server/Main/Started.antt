-- ===== src/Server/Main/Started.antt =====
-- crates/pes-server/src/main.rs: a process that nothing goes wrong in, and what it says of itself.
use prometheus_entity_sync.Base.{
  Text, codes, text_beq, Result, ok, err, some, List, [], ℕ, ◌+◌, ◌≤◌, All, ok-injective, ◌≡◌, refl,
  sym,
}
use mathlib.Core.Path.{subst}
use prometheus_entity_sync.Rules.Parser.{SyncRuleSet, parse_sync_rules}
use prometheus_entity_sync.Rules.Validator.Sound.{IsValidRule, validate_iff}
use prometheus_entity_sync.Rules.Assigner.{BucketAssigner, new_assigner}
use prometheus_entity_sync.Router.Metrics.{RouterMetrics}
use prometheus_entity_sync.Server.Config.{Config}
use prometheus_entity_sync.Server.Health.{HealthState, empty, json, pos, health_router}
use prometheus_entity_sync.Server.Shutdown.{exit_of, drain_connections_total}
use prometheus_entity_sync.Server.Main.{
  Action, Outside, Boot, Services, continue_boot, ttl_secs, address, log_path, services_of,
  serve_sockets, open_and_pipe, start_up, shut_down, run,
}

module _ (o : Outside) (config : Config) where
  -- Every call up to the signal succeeds, with this rule set.
  pub record Succeeds (rule_set : SyncRuleSet) : Type 0 where
    pub connected : o.connect config.postgres.url config.postgres.max_pool_size ≡ ok tt
    pub parsed :
        parse_sync_rules o.toml_from_str o.read_to_string config.sync_rules.path ≡ ok rule_set
    pub made : o.make_dir config.oplog.data_dir ≡ ok tt
    pub opened : o.open_redb (log_path o config) (ttl_secs config.oplog.compaction_ttl_days) ≡ ok tt
    pub gateway_bound : o.listen (address config.server.host config.server.port) ≡ ok tt
    pub metrics_bound : o.listen (address config.server.host config.metrics.port) ≡ ok tt

  abbrev fresh : SyncRuleSet → BucketAssigner
  fresh rule_set = record { rule_set = rule_set; cache = []; cache_ttl = 3600 }

  new_assigner-ok :
      (rule_set : SyncRuleSet)
      → All (λ e. IsValidRule e.0 e.1) rule_set.rules
      → new_assigner rule_set 3600 ≡ ok (fresh rule_set)
  unfolding new_assigner
  new_assigner-ok rule_set valid = rw ((validate_iff rule_set).1 valid, new_assigner) refl

  start_up-ok :
      (rule_set : SyncRuleSet)
      → Succeeds rule_set
      → All (λ e. IsValidRule e.0 e.1) rule_set.rules
      → (start_up o config []).0 ≡ ok (services_of o config (fresh rule_set))
  unfolding start_up open_and_pipe serve_sockets
  start_up-ok rule_set h valid =
      rw
        (
          h.connected,
          h.parsed,
          new_assigner-ok rule_set valid,
          h.made,
          h.opened,
          h.gateway_bound,
          h.metrics_bound,
        )
        refl

  continue-ok :
      {A B : Type 0} (x : Result Text A × List Action) (f : A → Boot B) (a : A) (b : B)
      → x.0 ≡ ok a
      → ((mid : List Action) → (f a mid).0 ≡ ok b)
      → (continue_boot x f).0 ≡ ok b
  continue-ok (ok c, mid) f a b h k = subst (λ y. (f y mid).0 ≡ ok b) (sym (ok-injective h)) (k mid)
  continue-ok (err e, mid) f a b h k = cc

  -- What the HTTP server answers at any later count of connections and with any later metrics.
  abbrev pub IsReady : HealthState → Type 0
  IsReady state =
      (render : RouterMetrics → Text) (count : ℕ) (m : RouterMetrics)
      → (health_router render (record state { connection_count = count; router_metrics = m })
            (codes "/ready")
          ≡ some (record { status_code = 200; body = empty }))
        × (health_router render (record state { connection_count = count; router_metrics = m })
              (codes "/health")
            ≡ some (record {
              status_code = 200;
              body =
                  json (record { status = codes "healthy"; connections = count; lag_ms = pos 0 });
            }))

  -- If the calls up to the signal succeed and the rules in the file are valid, the process starts
  -- with these rules and an empty cache; and with the state that it then has, whatever count of
  -- connections and metrics are read in it, it answers that it is ready, with a lag of 0.
  pub start_up-IsReady :
      (rule_set : SyncRuleSet)
      → Succeeds rule_set
      → All (λ e. IsValidRule e.0 e.1) rule_set.rules
      → (s : Services) × ((start_up o config []).0 ≡ ok s)
        × (s.assigner.rule_set ≡ rule_set)
        × (s.assigner.cache ≡ [])
        × IsReady s.health_state
  unfolding health_router text_beq
  start_up-IsReady rule_set h valid = (
    services_of o config (fresh rule_set),
    start_up-ok rule_set h valid,
    refl,
    refl,
    λ render count m. (refl, refl),
  )

  -- If these calls succeed, the rules are valid, the signal comes and each turn of the last wait takes
  -- 100 ms at least, the process comes to its end, with the exit for the count of connections that it
  -- reads after the wait.
  pub run_total :
      (rule_set : SyncRuleSet)
      → Succeeds rule_set
      → All (λ e. IsValidRule e.0 e.1) rule_set.rules
      → o.wait_for_sigterm ≡ ok tt
      → ((k : ℕ) → o.now_ms k + 100 ≤ o.now_ms (k + 1))
      → o.signalled_at ≤ o.now_ms 0
      → (k : ℕ) × ((run o config []).0 ≡ ok (some (exit_of (o.connection_count (k + 1)))))
  unfolding run shut_down
  run_total rule_set h valid signal sleeps le =
      let (k, ends) =
        drain_connections_total o.connection_count o.now_ms sleeps o.signalled_at le in
      (
        k,
        continue-ok (start_up o config []) (λ _. shut_down o config) _ _
            (start_up-ok rule_set h valid) (λ mid. rw (signal, ends) refl),
      )
