-- ===== src/Server/Pipeline/Drain.antt =====
-- crates/pes-server/src/broker.rs and crates/pes-router/src/router.rs: every event is written in the end.
use mathlib.Core.List.{append_assoc, append-nil}
use mathlib.Core.Path.{subst}
use prometheus_entity_sync.Base.{
  All, All-append, ap, sym, ◌∙◌, Text, List, [], ◌∷◌, ◌++◌, ℕ, zero, suc, ◌+◌, ◌*◌, ◌≤◌, length,
  length-append, some, Option-cases, ◌≡◌, ◌⊎◌, refl, inl, inr, arith,
}
use prometheus_entity_sync.Core.Values.{Json}
use prometheus_entity_sync.Oplog.Redb.{Backend}
use prometheus_entity_sync.Oplog.Store.{BucketOpLog}
use prometheus_entity_sync.Router.Run.{EventEnvelope, receive, forward, write, Surroundings}
use prometheus_entity_sync.Server.Broker.{InProcessBroker, send}
use prometheus_entity_sync.Server.Pipeline.{
  Pipeline, started_on, Quiet, sends, receives, forwards, writes, QuietRun, stays, moves, Reaches,
  opt, in_flight,
}
use prometheus_entity_sync.Server.Pipeline.Order.{
  IsNumbered, payloads, route_all, envelopes, surroundings_of, IsRouted,
}
use prometheus_entity_sync.Server.Pipeline.Moves.{send-some}
use prometheus_entity_sync.Server.Pipeline.Routed.{
  published_by, quiet_writers, writers_of, Quiet-IsRouted, pipeline-IsRouted,
}

List-cases :
    (es : List EventEnvelope)
    → ((e : EventEnvelope) × (waiting : List EventEnvelope) × (es ≡ e ∷ waiting)) ⊎ (es ≡ [])
List-cases [] = inr refl
List-cases (e ∷ es) = inl (e, es, refl)

module _ (K : Backend) (channel_id : Text) where
  -- The steps that the envelopes in flight still need.
  abbrev pub steps_left : Pipeline K → ℕ
  steps_left s =
      4 * length (opt K s.publishing)
      + (3 * length s.broker.queue
          + (2 * length (opt K s.router.sending) + length s.router.channel))

  Quiet-steps_left : (s t : Pipeline K) → Quiet K channel_id s t → steps_left t + 1 ≡ steps_left s
  unfolding receive forward write
  Quiet-steps_left _ _ (sends s e b held sent) =
      let queued = (send-some K channel_id e s.broker b sent).1 in
      rw (held, queued) (omega (arith, length-append s.broker.queue (e ∷ [])))
  Quiet-steps_left _ _ (receives s e waiting up idle front) = rw (idle, front) (omega arith)
  Quiet-steps_left _ _ (forwards s e held room) =
      rw (room, held) (omega (arith, length-append s.router.channel (e ∷ [])))
  Quiet-steps_left _ _ (writes s w e waiting front) = rw front (omega arith)

  QuietRun-steps_left :
      (n : ℕ) (s t : Pipeline K) → QuietRun K channel_id n s t → n + steps_left t ≡ steps_left s
  QuietRun-steps_left n s t stays = omega arith
  QuietRun-steps_left n s t (moves {n = m} {t = u} q r) =
      omega (arith, Quiet-steps_left s u q, QuietRun-steps_left m u t r)

  -- The surroundings of the writes of a run, in their order.
  abbrev pub run_writers :
      (n : ℕ) (s t : Pipeline K) → QuietRun K channel_id n s t → List (Surroundings K)
  run_writers n s t stays = []
  run_writers n s t (moves {n = m} {t = u} q r) =
      quiet_writers K channel_id s u q ++ run_writers m u t r

  QuietRun-IsRouted :
      (log : BucketOpLog K) (ps : List Json) (ws : List (Surroundings K)) (n : ℕ) (s t : Pipeline K)
      (run : QuietRun K channel_id n s t)
      → IsRouted K channel_id log ps ws s
      → IsRouted K channel_id log ps (ws ++ run_writers n s t run) t
  QuietRun-IsRouted log ps ws n s t stays h =
      subst (λ x. IsRouted K channel_id log ps x s) (sym (append-nil ws)) h
  QuietRun-IsRouted log ps ws n s t (moves {n = m} {t = u} q r) h =
      let one = quiet_writers K channel_id s u q in
      subst (λ x. IsRouted K channel_id log ps x t) (append_assoc ws one (run_writers m u t r))
        (QuietRun-IsRouted log ps (ws ++ one) m u t r
          (Quiet-IsRouted K channel_id log ps ws s u q h))

  -- Nothing is in flight, and the log is what routing all that was published makes of the first log:
  -- one event after another, the first with the first surroundings of `writers`, and so on.
  pub record IsWritten (log : BucketOpLog K) (published : List Json)
      (writers : List (Surroundings K)) (s : Pipeline K) : Type 0 where
    pub written : List (Surroundings K × EventEnvelope)
    pub same_writers : surroundings_of K channel_id written ≡ writers
    pub same_log : s.router.oplog ≡ route_all K channel_id written log
    pub contents : payloads (envelopes K channel_id written) ≡ published
    pub numbered : IsNumbered 0 (envelopes K channel_id written)
    pub nothing_left : in_flight K s ≡ []

  drained-IsWritten :
      (log : BucketOpLog K) (ps : List Json) (ws : List (Surroundings K)) (s : Pipeline K)
      → in_flight K s ≡ []
      → IsRouted K channel_id log ps ws s
      → IsWritten log ps ws s
  drained-IsWritten log ps ws s done h =
      let old = envelopes K channel_id h.written in
      let all_of : old ++ in_flight K s ≡ old = ap (λ x. old ++ x) done ∙ append-nil old in
      record {
        written = h.written;
        same_writers = h.same_writers;
        same_log = h.same_log;
        contents = ap payloads (sym all_of) ∙ h.contents;
        numbered = subst (IsNumbered 0) all_of h.numbered;
        nothing_left = done;
      }

  abbrev pub CanMove : Pipeline K → Type 0
  CanMove s = (t : Pipeline K) × Quiet K channel_id s t

  -- A step that writes with `w` if it writes.
  abbrev CanMoveWith : Surroundings K → Pipeline K → Type 0
  CanMoveWith w s =
      (t : Pipeline K) × (q : Quiet K channel_id s t) × All (λ v. v ≡ w)
        (quiet_writers K channel_id s t q)

  sent :
      (e : EventEnvelope) (b : InProcessBroker)
      → b.queue ≡ []
      → (b' : InProcessBroker) × (send e b ≡ some b')
  unfolding send
  sent e b empty = (record b { queue = b.queue ++ e ∷ [] }, rw empty refl)

  -- Nobody waits for ever: the furthest stage that holds an envelope can pass it on.
  moves_on :
      (log : BucketOpLog K) (ps : List Json) (ws : List (Surroundings K)) (s : Pipeline K)
      (w : Surroundings K)
      → IsRouted K channel_id log ps ws s
      → CanMoveWith w s ⊎ (in_flight K s ≡ [])
  moves_on log ps ws s w h = elim (List-cases s.router.channel) [
    | inl (e, waiting, front) ↦ inl (_, writes s w e waiting front, (refl, tt))
    | inr empty ↦ elim (Option-cases s.router.sending) [
      | inr (e, held) ↦ inl (_, forwards s e held (rw empty refl), tt)
      | inl idle ↦ elim (List-cases s.broker.queue) [
        | inl (e, waiting, front) ↦ inl (_, receives s e waiting h.running idle front, tt)
        | inr drained ↦ elim (Option-cases s.publishing) [
          | inr (e, held) ↦
              let (b, done) = sent e s.broker drained in inl (_, sends s e b held done, tt)
          | inl nothing ↦ inr (rw (empty, idle, drained, nothing) refl)
        ]
      ]
    ]
  ]

  drained_by :
      (log : BucketOpLog K) (ps : List Json) (ws : List (Surroundings K)) (w : Surroundings K)
      (fuel : ℕ) (s : Pipeline K)
      → steps_left s ≤ fuel
      → IsRouted K channel_id log ps ws s
      → (n : ℕ) × (t : Pipeline K) × (run : QuietRun K channel_id n s t) × (in_flight K t ≡ [])
        × All (λ v. v ≡ w) (run_writers n s t run)
  drained_by log ps ws w zero s le h = elim (moves_on log ps ws s w h) [
    | inl (t, q, same) ↦ absurd (omega (arith, Quiet-steps_left s t q, le))
    | inr done ↦ (0, s, stays, done, tt)
  ]
  drained_by log ps ws w (suc fuel) s le h = elim (moves_on log ps ws s w h) [
    | inl (t, q, same) ↦
        let one = quiet_writers K channel_id s t q in
        let (n, u, r, done, rest) =
          drained_by log ps (ws ++ one) w fuel t (omega (arith, Quiet-steps_left s t q, le))
            (Quiet-IsRouted K channel_id log ps ws s t q h) in
        (suc n, u, moves q r, done, All-append (λ v. v ≡ w) one (run_writers n t u r) same rest)
    | inr done ↦ (0, s, stays, done, tt)
  ]

  goes_on :
      (log : BucketOpLog K) (ps : List Json) (ws : List (Surroundings K)) (s : Pipeline K)
      (w : Surroundings K)
      → IsRouted K channel_id log ps ws s
      → CanMove s ⊎ IsWritten log ps ws s
  goes_on log ps ws s w h = elim (moves_on log ps ws s w h) [
    | inl (t, q, same) ↦ inl (t, q)
    | inr done ↦ inr (drained-IsWritten log ps ws s done h)
  ]

  -- From every state that the pipeline reaches, if nothing new is published: no run is longer than the
  -- steps that the envelopes in flight still need. Every run can go on or has written everything:
  -- nothing is in flight, and the log is what routing the events that were published, all of them in their
  -- order and numbered from 0, makes of the first log, each with the surroundings of its turn of
  -- the writer, before the state or in the run. And some run has written everything in this way,
  -- with the given surroundings in all its turns of the writer.
  pub pipeline-drains :
      (log : BucketOpLog K) (w : Surroundings K) (s : Pipeline K)
      (r : Reaches K channel_id (started_on K log) s)
      → let ps = published_by K channel_id (started_on K log) s r in
        let ws = writers_of K channel_id (started_on K log) s r in
        ((n : ℕ) (t : Pipeline K) (run : QuietRun K channel_id n s t)
          → (n ≤ steps_left s) × (CanMove t ⊎ IsWritten log ps (ws ++ run_writers n s t run) t))
        × ((n : ℕ) × (t : Pipeline K) × (run : QuietRun K channel_id n s t) × IsWritten log ps
              (ws ++ run_writers n s t run)
              t
            × All (λ v. v ≡ w) (run_writers n s t run))
  pipeline-drains log w s r =
      let ps = published_by K channel_id (started_on K log) s r in
      let ws = writers_of K channel_id (started_on K log) s r in
      let h = pipeline-IsRouted K channel_id log s r in
      let (n, t, run, done, same) = drained_by log ps ws w (steps_left s) s (omega arith) h in
      (
        λ n t run. (
          omega (arith, QuietRun-steps_left n s t run),
          goes_on log ps (ws ++ run_writers n s t run) t w
              (QuietRun-IsRouted log ps ws n s t run h),
        ),
        (
          n,
          t,
          run,
          drained-IsWritten log ps (ws ++ run_writers n s t run) t done
              (QuietRun-IsRouted log ps ws n s t run h),
          same,
        ),
      )
