-- ===== src/Server/Pipeline/Moves.antt =====
-- crates/pes-server/src/broker.rs and crates/pes-router/src/router.rs: each step keeps the order of the events.
use prometheus_entity_sync.Base.{
  Text, List, [], ◌∷◌, ◌++◌, ◌+◌, ◌≤◌, ltb, ltb→lt, Bool-cases, length, none, some, ok, true, ◌≡◌,
  refl, sym, ap, ◌∙◌, inl, inr, arith,
}
use mathlib.Core.List.{append_assoc, append-nil}
use mathlib.Core.Path.{subst}
use prometheus_entity_sync.Core.{BucketId}
use prometheus_entity_sync.Core.Values.{Json}
use prometheus_entity_sync.Oplog.Redb.{Backend}
use prometheus_entity_sync.Oplog.Store.{BucketOpLog}
use prometheus_entity_sync.Router.Metrics.{
  RouterMetrics, record_event_received, record_op_routed, record_routing_latency_ms,
  set_oplog_queue_depth,
}
use prometheus_entity_sync.Router.Run.{
  EventEnvelope, backpressure_capacity, count_routed, receive, forward, write_next, is_measured,
  measured, Surroundings, route,
}
use prometheus_entity_sync.Server.Broker.{InProcessBroker, channel_buffer, take_offset, send}
use prometheus_entity_sync.Server.Pipeline.{Pipeline, opt, in_flight}
use prometheus_entity_sync.Server.Pipeline.Order.{
  IsNumbered, IsNumbered-snoc, payloads, payloads-append, envelopes, IsRouted, route_all-snoc,
  envelopes-snoc, surroundings_of-snoc, length-snoc, moved,
}

module _ (K : Backend) (channel_id : Text) where
  pub send-some :
      (e : EventEnvelope) (b b' : InProcessBroker)
      → send e b ≡ some b'
      → (length b.queue + 1 ≤ channel_buffer) × (b' ≡ record b { queue = b.queue ++ e ∷ [] })
  unfolding send
  send-some e b b' h = elim (Bool-cases (ltb (length b.queue) channel_buffer)) [
    | inl room ↦ (omega (arith, ltb→lt (length b.queue) channel_buffer room), cc (rw room at h))
    | inr full ↦ cc (rw full at h)
  ]

  pub sends-IsRouted :
      (log : BucketOpLog K) (ps : List Json) (ws : List (Surroundings K)) (s : Pipeline K)
      (e : EventEnvelope)
      → s.publishing ≡ some e
      → length s.broker.queue + 1 ≤ channel_buffer
      → IsRouted K channel_id log ps ws s
      → IsRouted K channel_id log ps (ws ++ []) (record s {
        publishing = none;
        broker = record (s.broker) { queue = s.broker.queue ++ e ∷ [] };
      })
  sends-IsRouted log ps ws s e held room h =
      moved K channel_id log ps ws s _ refl (rw (held, append-nil (s.broker.queue ++ e ∷ [])) refl)
        refl refl (omega (arith, room, length-snoc K channel_id s.broker.queue e)) h.channel_bound
        h.running h

  pub receives-IsRouted :
      (log : BucketOpLog K) (ps : List Json) (ws : List (Surroundings K)) (s : Pipeline K)
      (e : EventEnvelope) (waiting : List EventEnvelope)
      → s.router.sending ≡ none
      → s.broker.queue ≡ e ∷ waiting
      → IsRouted K channel_id log ps ws s
      → IsRouted K channel_id log ps (ws ++ []) (record s {
        broker = record (s.broker) { queue = waiting };
        router = receive K channel_id (some (ok e)) s.router;
      })
  unfolding receive record_event_received set_oplog_queue_depth
  receives-IsRouted log ps ws s e waiting idle front h =
      moved K channel_id log ps ws s _ refl (rw (idle, front) refl) refl (rw idle (omega arith))
        (omega (arith, h.queue_bound, ap (λ x. length x) front)) h.channel_bound h.running h

  pub forwards-IsRouted :
      (log : BucketOpLog K) (ps : List Json) (ws : List (Surroundings K)) (s : Pipeline K)
      (e : EventEnvelope)
      → s.router.sending ≡ some e
      → ltb (length s.router.channel) backpressure_capacity ≡ true
      → IsRouted K channel_id log ps ws s
      → IsRouted K channel_id log ps (ws ++ []) (record s { router = forward K e s.router })
  unfolding forward
  forwards-IsRouted log ps ws s e held room h = rw room (
      moved K channel_id log ps ws s
        (record s {
          router = record (s.router) { sending = none; channel = s.router.channel ++ e ∷ [] };
        })
        refl
        (rw held (append_assoc s.router.channel (e ∷ []) (s.broker.queue ++ opt K s.publishing)))
        refl (rw held (omega (arith, length-snoc K channel_id s.router.channel e))) h.queue_bound
        (omega (
          arith,
          length-snoc K channel_id s.router.channel e,
          ltb→lt (length s.router.channel) backpressure_capacity room,
        ))
        h.running h)

  count_routed-received :
      (bs : List BucketId) (m : RouterMetrics)
      → (count_routed bs m).wal_events_received_total ≡ m.wal_events_received_total
  unfolding count_routed record_op_routed
  count_routed-received [] m = refl
  count_routed-received (b ∷ bs) m = count_routed-received bs (record_op_routed b m)

  measured-received :
      (w : Surroundings K) (e : EventEnvelope) (m : RouterMetrics)
      → (measured K w e m).wal_events_received_total ≡ m.wal_events_received_total
  unfolding record_routing_latency_ms
  measured-received w e m = elim (Bool-cases (is_measured K w (w.decode_payload e.payload))) [
    | inl yes_ ↦ rw yes_ refl
    | inr no_ ↦ rw no_ refl
  ]

  abbrev after_write : Surroundings K → EventEnvelope → List EventEnvelope → Pipeline K → Pipeline K
  after_write w e waiting s = record s { router = write_next K w (e ∷ waiting) s.router }

  pub writes-IsRouted :
      (log : BucketOpLog K) (ps : List Json) (ws : List (Surroundings K)) (s : Pipeline K)
      (w : Surroundings K) (e : EventEnvelope) (waiting : List EventEnvelope)
      → s.router.channel ≡ e ∷ waiting
      → IsRouted K channel_id log ps ws s
      → IsRouted K channel_id log ps (ws ++ w ∷ []) (after_write w e waiting s)
  writes-IsRouted log ps ws s w e waiting front h =
      let rest = opt K s.router.sending ++ (s.broker.queue ++ opt K s.publishing) in
      let t = after_write w e waiting s in
      let one : List (Surroundings K × EventEnvelope) = (w, e) ∷ [] in
      let all_of : envelopes K channel_id (h.written ++ one) ++ in_flight K t
          ≡ envelopes K channel_id h.written ++ in_flight K s =
        ap (λ x. x ++ in_flight K t) (envelopes-snoc K channel_id h.written w e)
        ∙ append_assoc (envelopes K channel_id h.written) (e ∷ []) (in_flight K t)
        ∙ ap (λ c. envelopes K channel_id h.written ++ (c ++ rest)) (sym front) in
      record {
        written = h.written ++ one;
        same_writers =
            surroundings_of-snoc K channel_id h.written w e ∙ ap (λ x. x ++ w ∷ []) h.same_writers;
        same_log =
            ap (λ l. (route K w e l).1) h.same_log
            ∙ sym (route_all-snoc K channel_id h.written w e log);
        contents = ap payloads all_of ∙ h.contents;
        numbered = subst (IsNumbered 0) (sym all_of) h.numbered;
        next = h.next ∙ ap (λ x. length x) (sym all_of);
        received =
            measured-received w e (count_routed (route K w e s.router.oplog).0 s.router.metrics)
            ∙ count_routed-received (route K w e s.router.oplog).0 s.router.metrics
            ∙ omega (
              arith,
              h.received,
              ap (λ x. length x) front,
              ap (λ x. length x) (envelopes-snoc K channel_id h.written w e),
              length-snoc K channel_id (envelopes K channel_id h.written) e,
            );
        queue_bound = h.queue_bound;
        channel_bound = omega (arith, h.channel_bound, ap (λ x. length x) front);
        running = h.running;
      }

  pub publishes-IsRouted :
      (log : BucketOpLog K) (ps : List Json) (ws : List (Surroundings K)) (s : Pipeline K)
      (e : EventEnvelope)
      → s.publishing ≡ none
      → IsRouted K channel_id log ps ws s
      → IsRouted K channel_id log (ps ++ e.payload ∷ []) (ws ++ []) (record s {
        publishing = some (take_offset e s.broker).0;
        broker = (take_offset e s.broker).1;
      })
  unfolding take_offset
  publishes-IsRouted log ps ws s e idle h =
      let e' : EventEnvelope = record e { offset = s.broker.next_offset } in
      let old = envelopes K channel_id h.written ++ in_flight K s in
      let longer : envelopes K channel_id h.written
            ++ (s.router.channel ++ (opt K s.router.sending ++ (s.broker.queue ++ e' ∷ [])))
          ≡ old ++ e' ∷ [] =
        rw idle (
          rw (append-nil s.broker.queue) (
            ap (λ x. envelopes K channel_id h.written ++ (s.router.channel ++ x))
              (sym (append_assoc (opt K s.router.sending) s.broker.queue (e' ∷ [])))
            ∙ ap (λ x. envelopes K channel_id h.written ++ x)
                (sym (
                  append_assoc s.router.channel (opt K s.router.sending ++ s.broker.queue)
                    (e' ∷ [])))
            ∙ sym (
                append_assoc (envelopes K channel_id h.written)
                  (s.router.channel ++ (opt K s.router.sending ++ s.broker.queue)) (e' ∷ [])))) in
      record {
        written = h.written;
        same_writers = h.same_writers ∙ sym (append-nil ws);
        same_log = h.same_log;
        contents =
            ap payloads longer
            ∙ payloads-append old (e' ∷ [])
            ∙ ap (λ x. x ++ e.payload ∷ []) h.contents;
        numbered =
            subst (IsNumbered 0) (sym longer)
              (IsNumbered-snoc 0 old e' h.numbered (omega (arith, h.next)));
        next = omega (arith, h.next, length-snoc K channel_id old e', ap (λ x. length x) longer);
        received = h.received;
        queue_bound = h.queue_bound;
        channel_bound = h.channel_bound;
        running = h.running;
      }
