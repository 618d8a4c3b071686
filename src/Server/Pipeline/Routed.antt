-- ===== src/Server/Pipeline/Routed.antt =====
-- crates/pes-server/src/broker.rs and crates/pes-router/src/router.rs: every step keeps the order.
use prometheus_entity_sync.Base.{List, ◌∷◌, ◌++◌, Text, [], none, refl, sym, arith}
use mathlib.Core.Path.{subst}
use prometheus_entity_sync.Core.Values.{Json}
use prometheus_entity_sync.Oplog.Redb.{Backend}
use prometheus_entity_sync.Oplog.Store.{BucketOpLog}
use prometheus_entity_sync.Router.Run.{Surroundings, write, write_next}
use prometheus_entity_sync.Server.Pipeline.{
  Pipeline, started_on, Quiet, sends, receives, forwards, writes, Step, publishes, passes_on,
  Reaches, here, and_then,
}
use prometheus_entity_sync.Server.Pipeline.Order.{route_all, IsRouted}
use prometheus_entity_sync.Server.Pipeline.Moves.{
  send-some, sends-IsRouted, receives-IsRouted, forwards-IsRouted, writes-IsRouted,
  publishes-IsRouted,
}

module _ (K : Backend) (channel_id : Text) where
  -- The surroundings with which a step writes, and those of the writes of a run, in their order.
  abbrev pub quiet_writers : (s t : Pipeline K) → Quiet K channel_id s t → List (Surroundings K)
  quiet_writers _ _ (sends s e b held sent) = []
  quiet_writers _ _ (receives s e waiting up idle front) = []
  quiet_writers _ _ (forwards s e held room) = []
  quiet_writers _ _ (writes s w e waiting front) = w ∷ []

  abbrev pub step_writers : (s t : Pipeline K) → Step K channel_id s t → List (Surroundings K)
  step_writers _ _ (publishes s e idle) = []
  step_writers s t (passes_on q) = quiet_writers s t q

  abbrev pub writers_of : (s t : Pipeline K) → Reaches K channel_id s t → List (Surroundings K)
  writers_of s t here = []
  writers_of s t (and_then {t = u} r step) = writers_of s u r ++ step_writers u t step

  -- The payloads that were published by the end of a step, and of a run.
  abbrev pub after_step : List Json → (s t : Pipeline K) → Step K channel_id s t → List Json
  after_step ps _ _ (publishes s e idle) = ps ++ e.payload ∷ []
  after_step ps s t (passes_on q) = ps

  abbrev pub published_by : (s t : Pipeline K) → Reaches K channel_id s t → List Json
  published_by s t here = []
  published_by s t (and_then {t = u} r step) = after_step (published_by s u r) u t step

  pub Quiet-IsRouted :
      (log : BucketOpLog K) (ps : List Json) (ws : List (Surroundings K)) (s t : Pipeline K)
      (q : Quiet K channel_id s t)
      → IsRouted K channel_id log ps ws s
      → IsRouted K channel_id log ps (ws ++ quiet_writers s t q) t
  unfolding write
  Quiet-IsRouted log ps ws _ _ (sends s e b held sent) h =
      let some_room = send-some K channel_id e s.broker b sent in
      subst
        (λ x. IsRouted K channel_id log ps (ws ++ []) (record s { publishing = none; broker = x }))
        (sym some_room.1) (sends-IsRouted K channel_id log ps ws s e held some_room.0 h)
  Quiet-IsRouted log ps ws _ _ (receives s e waiting up idle front) h =
      receives-IsRouted K channel_id log ps ws s e waiting idle front h
  Quiet-IsRouted log ps ws _ _ (forwards s e held room) h =
      forwards-IsRouted K channel_id log ps ws s e held room h
  Quiet-IsRouted log ps ws _ _ (writes s w e waiting front) h =
      subst
        (λ c.
          IsRouted K channel_id log ps (ws ++ w ∷ [])
            (record s { router = write_next K w c s.router }))
        (sym front) (writes-IsRouted K channel_id log ps ws s w e waiting front h)

  Step-IsRouted :
      (log : BucketOpLog K) (ps : List Json) (ws : List (Surroundings K)) (s t : Pipeline K)
      (step : Step K channel_id s t)
      → IsRouted K channel_id log ps ws s
      → IsRouted K channel_id log (after_step ps s t step) (ws ++ step_writers s t step) t
  Step-IsRouted log ps ws _ _ (publishes s e idle) h =
      publishes-IsRouted K channel_id log ps ws s e idle h
  Step-IsRouted log ps ws s t (passes_on q) h = Quiet-IsRouted log ps ws s t q h

  started_on-IsRouted : (log : BucketOpLog K) → IsRouted K channel_id log [] [] (started_on K log)
  unfolding route_all
  started_on-IsRouted log = record {
    written = [];
    same_writers = refl;
    same_log = refl;
    contents = refl;
    numbered = tt;
    next = refl;
    received = refl;
    queue_bound = omega arith;
    channel_bound = omega arith;
    running = refl;
  }

  -- In every state that the pipeline reaches from its start, in whatever order the publisher, the loop
  -- and the writer take their steps, the log is what routing some events one after another makes of
  -- the first log. There is one of them for each turn of the writer in the run, in their
  -- order, and it is routed with the surroundings of that turn. These events,
  -- followed by those in flight, have the payloads that were published, in the order of their publication,
  -- and are numbered from 0 without a gap. The counter of received events is the number of those that have
  -- left the broker; the two channels keep their bounds; and the loop has not ended.
  pub pipeline-IsRouted :
      (log : BucketOpLog K) (s : Pipeline K) (r : Reaches K channel_id (started_on K log) s)
      → IsRouted K channel_id log
          (published_by (started_on K log) s r)
          (writers_of (started_on K log) s r)
          s
  pipeline-IsRouted log s here = started_on-IsRouted log
  pipeline-IsRouted log s (and_then {t = t} r step) =
      Step-IsRouted log (published_by (started_on K log) t r) (writers_of (started_on K log) t r) t
        s step (pipeline-IsRouted log t r)
