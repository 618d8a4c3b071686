-- ===== src/Server/Main/Turns.antt =====
-- crates/pes-server/src/main.rs: what may happen when, and the end of the process.
use prometheus_entity_sync.Base.{
  Text, Result, ok, err, Option, none, some, List, [], ◌∷◌, ◌++◌, ℕ, All, Has, Has-snoc, Has-prefix,
  EmitsAt, EmitsAt-none, EmitsAt-one, EmitsAt-append, ◌≡◌, refl,
}
use prometheus_entity_sync.Rules.Parser.{SyncRuleSet, parse_sync_rules}
use prometheus_entity_sync.Rules.Validator.Sound.{IsValidRule}
use prometheus_entity_sync.Server.Config.{Config}
use prometheus_entity_sync.Server.Shutdown.{Exit, drain_connections}
use prometheus_entity_sync.Server.Main.{
  Task, cdc_consumer, router, gateway_server, health_server, Action, open_log, spawn, abort,
  await_signal, cancel_gateway, stop_cdc, drained, Outside, Boot, continue_boot, tries, abort_all,
  shut_down,
}

module _ (o : Outside) (config : Config) where
  -- The rules file parses to rules that keep the documented conditions.
  abbrev pub HasValidRules : Type 0
  HasValidRules =
      (rule_set : SyncRuleSet) × (parse_sync_rules o.toml_from_str o.read_to_string
          config.sync_rules.path
        ≡ ok rule_set)
      × All (λ e. IsValidRule e.0 e.1) rule_set.rules

  -- The gateway starts under valid rules, when the log is open and the pipeline runs; tasks are
  -- aborted when the gateway was told to close and the wait for its connections is over.
  abbrev pub IsInTurn : List Action → Action → Type 0
  IsInTurn before (spawn gateway_server) =
      HasValidRules
      × ((path : Text) × (ttl : ℕ) × Has (open_log path ttl) before
          × (o.open_redb path ttl ≡ ok tt))
      × Has (spawn cdc_consumer) before
      × Has (spawn router) before
  IsInTurn before (abort task) =
      Has cancel_gateway before
      × (exit : Exit) × Has (drained exit) before
      × (drain_connections o.connection_count o.now_ms o.signalled_at ≡ some exit)
  IsInTurn before _ = Unit

  pub continue-InTurn :
      {A B : Type 0} (before : List Action) (x : Result Text A × List Action) (f : A → Boot B)
      → EmitsAt IsInTurn before x.1
      → ((a : A) → x.0 ≡ ok a → EmitsAt IsInTurn x.1 (f a x.1).1)
      → EmitsAt IsInTurn before (continue_boot x f).1
  continue-InTurn before (ok a, mid) f h k = EmitsAt-append IsInTurn before mid _ h (k a refl)
  continue-InTurn before (err e, mid) f h k = h

  -- One call, and what comes after it.
  pub tried :
      {B : Type 0} (before : List Action) (action : Action) (r : Result Text (Unit {0}))
      (f : Unit {0} → Boot B)
      → IsInTurn before action
      → (r ≡ ok tt → EmitsAt IsInTurn (before ++ action ∷ []) (f tt (before ++ action ∷ [])).1)
      → EmitsAt IsInTurn before (continue_boot (tries action r before) f).1
  tried before action r f h k =
      continue-InTurn before (tries action r before) f (EmitsAt-one IsInTurn before action h)
        (λ u e. k e)

  -- The wait for the connections is over.
  abbrev MayAbort : List Action → Type 0
  MayAbort before = (task : Task) → IsInTurn before (abort task)

  MayAbort-snoc :
      (before : List Action) (action : Action) → MayAbort before → MayAbort (before ++ action ∷ [])
  MayAbort-snoc before action h task =
      let (cancelled, exit, over, ended) = h task in
      (
        Has-prefix cancel_gateway action before cancelled,
        exit,
        Has-prefix (drained exit) action before over,
        ended,
      )

  aborted :
      (before after : List Action) (task : Task)
      → MayAbort before
      → (MayAbort (before ++ abort task ∷ []) → EmitsAt IsInTurn (before ++ abort task ∷ []) after)
      → EmitsAt IsInTurn before after
  aborted before after task h k =
      EmitsAt-append IsInTurn before (before ++ abort task ∷ []) after
        (EmitsAt-one IsInTurn before (abort task) (h task))
        (k (MayAbort-snoc before (abort task) h))

  abort_all-InTurn :
      (before : List Action) (r : Option Exit)
      → Has cancel_gateway before
      → drain_connections o.connection_count o.now_ms o.signalled_at ≡ r
      → EmitsAt IsInTurn before (abort_all o config r before).1
  abort_all-InTurn before none has same = EmitsAt-none IsInTurn before
  abort_all-InTurn before (some exit) has same =
      let over = before ++ drained exit ∷ [] in
      let may : MayAbort over = λ task. (
        Has-prefix cancel_gateway (drained exit) before has,
        exit,
        Has-snoc (drained exit) before,
        same,
      ) in
      EmitsAt-append IsInTurn before over _ (EmitsAt-one IsInTurn before (drained exit) tt) (
        aborted over _ health_server may (λ m. aborted _ _ gateway_server m (λ n.
          aborted _ _ router n
            (λ k. EmitsAt-one IsInTurn _ (abort cdc_consumer) (k cdc_consumer)))))

  pub shut_down-InTurn :
      (before : List Action) → EmitsAt IsInTurn before (shut_down o config before).1
  unfolding shut_down
  shut_down-InTurn before =
      tried {B = Option Exit} before await_signal o.wait_for_sigterm _ tt (λ signalled.
        let waiting = before ++ await_signal ∷ [] in
        let closing = (waiting ++ cancel_gateway ∷ []) ++ stop_cdc ∷ [] in
        EmitsAt-append IsInTurn waiting closing _
          (EmitsAt-append IsInTurn waiting (waiting ++ cancel_gateway ∷ []) closing
            (EmitsAt-one IsInTurn waiting cancel_gateway tt)
            (EmitsAt-one IsInTurn (waiting ++ cancel_gateway ∷ []) stop_cdc tt))
          (abort_all-InTurn closing (drain_connections o.connection_count o.now_ms o.signalled_at)
            (Has-prefix cancel_gateway stop_cdc (waiting ++ cancel_gateway ∷ [])
              (Has-snoc cancel_gateway waiting))
            refl))
