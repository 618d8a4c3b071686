-- ===== src/Server/Pipeline.antt =====
-- From the CDC consumer to the log: crates/pes-server/src/main.rs puts broker.rs and the router of
-- crates/pes-router/src/router.rs together. There is one publisher, which awaits each call of `publish`;
-- it, the loop of the router and its writer take their steps in any order.
pub mod Order
pub mod Moves
pub mod Routed
pub mod Drain
mod Tests
use prometheus_entity_sync.Base.{
  Text, List, [], ◌∷◌, ◌++◌, map, ℕ, suc, ◌+◌, ltb, length, Option, none, some, Result, ok, err,
  Bool, true, false, if◌then◌else◌, ◌≡◌,
}
use prometheus_entity_sync.Oplog.Redb.{Backend}
use prometheus_entity_sync.Oplog.Store.{BucketOpLog}
use prometheus_entity_sync.Router.Metrics.{new_metrics}
use prometheus_entity_sync.Router.Run.{
  EventEnvelope, backpressure_capacity, Running, begin, receive, forward, write, Surroundings,
  route,
}
use prometheus_entity_sync.Server.Broker.{InProcessBroker, new_broker, take_offset, send}

module _ (K : Backend) where
  -- The publisher's envelope between the two halves of `publish`.
  pub record Pipeline : Type 0 where
    pub publishing : Option EventEnvelope
    pub broker : InProcessBroker
    pub router : Running K

  -- At the start of the process, on the log that it opens.
  abbrev pub started_on : BucketOpLog K → Pipeline
  started_on log = record {
    publishing = none;
    broker = record new_broker { rx = false };
    router = begin K (ok tt) log new_metrics;
  }

  -- The steps that pass an envelope on.
  pub data Quiet (channel_id : Text) : Pipeline → Pipeline → Type 0 where
    sends :
        (s : Pipeline) (e : EventEnvelope) (b : InProcessBroker)
        → s.publishing ≡ some e
        → send e s.broker ≡ some b
        → Quiet channel_id s (record s { publishing = none; broker = b })
    receives :
        (s : Pipeline) (e : EventEnvelope) (waiting : List EventEnvelope)
        → s.router.ended ≡ none
        → s.router.sending ≡ none
        → s.broker.queue ≡ e ∷ waiting
        → Quiet channel_id s (record s {
          broker = record (s.broker) { queue = waiting };
          router = receive K channel_id (some (ok e)) s.router;
        })
    forwards :
        (s : Pipeline) (e : EventEnvelope)
        → s.router.sending ≡ some e
        → ltb (length s.router.channel) backpressure_capacity ≡ true
        → Quiet channel_id s (record s { router = forward K e s.router })
    writes :
        (s : Pipeline) (w : Surroundings K) (e : EventEnvelope) (waiting : List EventEnvelope)
        → s.router.channel ≡ e ∷ waiting
        → Quiet channel_id s (record s { router = write K w s.router })

  pub data Step (channel_id : Text) : Pipeline → Pipeline → Type 0 where
    publishes :
        (s : Pipeline) (e : EventEnvelope)
        → s.publishing ≡ none
        → Step channel_id s (record s {
          publishing = some (take_offset e s.broker).0;
          broker = (take_offset e s.broker).1;
        })
    passes_on : {s t : Pipeline} → Quiet channel_id s t → Step channel_id s t

  pub data Reaches (channel_id : Text) : Pipeline → Pipeline → Type 0 where
    here : {s : Pipeline} → Reaches channel_id s s
    and_then :
        {s t u : Pipeline} → Reaches channel_id s t → Step channel_id t u → Reaches channel_id s u

  -- A run of `n` steps without a new envelope.
  pub data QuietRun (channel_id : Text) : ℕ → Pipeline → Pipeline → Type 0 where
    stays : {s : Pipeline} → QuietRun channel_id 0 s s
    moves :
        {n : ℕ} {s t u : Pipeline}
        → Quiet channel_id s t
        → QuietRun channel_id n t u
        → QuietRun channel_id (suc n) s u

  abbrev pub opt : Option EventEnvelope → List EventEnvelope
  opt none = []
  opt (some e) = e ∷ []

  -- The envelopes that are published and not written, oldest first.
  abbrev pub in_flight : Pipeline → List EventEnvelope
  in_flight s = s.router.channel ++ (opt s.router.sending ++ (s.broker.queue ++ opt s.publishing))
