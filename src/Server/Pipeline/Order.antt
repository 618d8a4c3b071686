-- ===== src/Server/Pipeline/Order.antt =====
-- crates/pes-server/src/broker.rs and crates/pes-router/src/router.rs: the order of the events.
use prometheus_entity_sync.Base.{
  Text, List, [], ◌∷◌, ◌++◌, ℕ, ◌+◌, ◌≤◌, length, length-append, none, ◌≡◌, refl, sym, ap, ◌∙◌,
  arith,
}
use mathlib.Core.List.{append-nil}
use mathlib.Core.Path.{subst}
use prometheus_entity_sync.Core.Values.{Json}
use prometheus_entity_sync.Oplog.Redb.{Backend}
use prometheus_entity_sync.Oplog.Store.{BucketOpLog}
use prometheus_entity_sync.Router.Run.{EventEnvelope, backpressure_capacity, Surroundings, route}
use prometheus_entity_sync.Server.Broker.{channel_buffer}
use prometheus_entity_sync.Server.Pipeline.{Pipeline, opt, in_flight}

-- The offsets of a list of envelopes count from `n`.
abbrev pub IsNumbered : ℕ → List EventEnvelope → Type 0
IsNumbered n [] = Unit
IsNumbered n (e ∷ es) = (e.offset ≡ n) × IsNumbered (n + 1) es

pub IsNumbered-snoc :
    (n : ℕ) (es : List EventEnvelope) (e : EventEnvelope)
    → IsNumbered n es
    → e.offset ≡ n + length es
    → IsNumbered n (es ++ e ∷ [])
IsNumbered-snoc n [] e h o = (omega (arith, o), tt)
IsNumbered-snoc n (d ∷ es) e h o = (h.0, IsNumbered-snoc (n + 1) es e h.1 (omega (arith, o)))

abbrev pub payloads : List EventEnvelope → List Json
payloads [] = []
payloads (e ∷ es) = e.payload ∷ payloads es

pub payloads-append :
    (es fs : List EventEnvelope) → payloads (es ++ fs) ≡ payloads es ++ payloads fs
payloads-append [] fs = refl
payloads-append (e ∷ es) fs = ap (λ x. e.payload ∷ x) (payloads-append es fs)

module _ (K : Backend) (channel_id : Text) where
  -- The reference: the events are routed one after another.
  unfoldable pub route_all : List (Surroundings K × EventEnvelope) → BucketOpLog K → BucketOpLog K
  route_all [] log = log
  route_all ((w, e) ∷ es) log = route_all es (route K w e log).1

  abbrev pub envelopes : List (Surroundings K × EventEnvelope) → List EventEnvelope
  envelopes [] = []
  envelopes ((w, e) ∷ es) = e ∷ envelopes es

  abbrev pub surroundings_of : List (Surroundings K × EventEnvelope) → List (Surroundings K)
  surroundings_of [] = []
  surroundings_of ((w, e) ∷ es) = w ∷ surroundings_of es

  -- What stands behind a state: the events that were written, of which the first was
  -- written with the first surroundings of `writers`, and so on to the last; `published`
  -- are the payloads that were published, in that order.
  pub record IsRouted (log : BucketOpLog K) (published : List Json)
      (writers : List (Surroundings K)) (s : Pipeline K) : Type 0 where
    pub written : List (Surroundings K × EventEnvelope)
    pub same_writers : surroundings_of written ≡ writers
    pub same_log : s.router.oplog ≡ route_all written log
    pub contents : payloads (envelopes written ++ in_flight K s) ≡ published
    pub numbered : IsNumbered 0 (envelopes written ++ in_flight K s)
    pub next : s.broker.next_offset ≡ length (envelopes written ++ in_flight K s)
    pub received :
        s.router.metrics.wal_events_received_total
        ≡ length (envelopes written) + (length s.router.channel + length (opt K s.router.sending))
    pub queue_bound : length s.broker.queue ≤ channel_buffer
    pub channel_bound : length s.router.channel ≤ backpressure_capacity
    pub running : s.router.ended ≡ none

  pub route_all-snoc :
      (es : List (Surroundings K × EventEnvelope)) (w : Surroundings K) (e : EventEnvelope)
      (log : BucketOpLog K)
      → route_all (es ++ (w, e) ∷ []) log ≡ (route K w e (route_all es log)).1
  unfolding route_all
  route_all-snoc [] w e log = refl
  route_all-snoc ((v, d) ∷ es) w e log = route_all-snoc es w e (route K v d log).1

  pub envelopes-snoc :
      (es : List (Surroundings K × EventEnvelope)) (w : Surroundings K) (e : EventEnvelope)
      → envelopes (es ++ (w, e) ∷ []) ≡ envelopes es ++ e ∷ []
  envelopes-snoc [] w e = refl
  envelopes-snoc ((v, d) ∷ es) w e = ap (λ x. d ∷ x) (envelopes-snoc es w e)

  pub surroundings_of-snoc :
      (es : List (Surroundings K × EventEnvelope)) (w : Surroundings K) (e : EventEnvelope)
      → surroundings_of (es ++ (w, e) ∷ []) ≡ surroundings_of es ++ w ∷ []
  surroundings_of-snoc [] w e = refl
  surroundings_of-snoc ((v, d) ∷ es) w e = ap (λ x. v ∷ x) (surroundings_of-snoc es w e)

  pub length-snoc :
      (es : List EventEnvelope) (e : EventEnvelope) → length (es ++ e ∷ []) ≡ length es + 1
  length-snoc es e = length-append es (e ∷ []) ∙ omega arith

  -- A step that neither publishes nor writes.
  pub moved :
      (log : BucketOpLog K) (ps : List Json) (ws : List (Surroundings K)) (s t : Pipeline K)
      → t.router.oplog ≡ s.router.oplog
      → in_flight K t ≡ in_flight K s
      → t.broker.next_offset ≡ s.broker.next_offset
      → t.router.metrics.wal_events_received_total
          + (length s.router.channel + length (opt K s.router.sending))
        ≡ s.router.metrics.wal_events_received_total
          + (length t.router.channel + length (opt K t.router.sending))
      → length t.broker.queue ≤ channel_buffer
      → length t.router.channel ≤ backpressure_capacity
      → t.router.ended ≡ none
      → IsRouted log ps ws s
      → IsRouted log ps (ws ++ []) t
  moved log ps ws s t same_oplog same_flight same_next count queue_bound channel_bound running h =
      record {
        written = h.written;
        same_writers = h.same_writers ∙ sym (append-nil ws);
        same_log = same_oplog ∙ h.same_log;
        contents = ap (λ x. payloads (envelopes h.written ++ x)) same_flight ∙ h.contents;
        numbered =
            subst (λ x. IsNumbered 0 (envelopes h.written ++ x)) (sym same_flight) h.numbered;
        next = same_next ∙ h.next ∙ ap (λ x. length (envelopes h.written ++ x)) (sym same_flight);
        received = omega (arith, h.received, count);
        queue_bound = queue_bound;
        channel_bound = channel_bound;
        running = running;
      }
