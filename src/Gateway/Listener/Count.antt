-- ===== src/Gateway/Listener/Count.antt =====
-- crates/pes-gateway/src/server.rs: what the count of connections says, in every reachable state.
use prometheus_entity_sync.Base.{
  ℕ, zero, suc, ◌+◌, ◌%◌, ◌<◌, ◌≤◌, ltb, ltb→lt, true, Bool-cases, ◌≡◌, refl, ap, ◌∙◌, inl, inr,
  arith,
}
use mathlib.Core.Path.{subst}
use prometheus_entity_sync.Gateway.Listener.{
  GatewayConfig, GatewayServer, bind, usize, fetch_add, fetch_sub, accept, start, handshake_failed,
  handshake_done, handler_returned, stop, Step, accepts, starts, fails, opens, closes, stops,
  Reaches, here, and_then,
}

-- The tasks that have counted themselves.
abbrev pub counted : GatewayServer → ℕ
counted s = s.handshaking + s.handling

fetch_add-mod : (m : ℕ) → fetch_add (m % usize) ≡ (m + 1) % usize
unfolding fetch_add
fetch_add-mod m = omega arith

fetch_sub-mod : (m c : ℕ) → c ≡ m + 1 → fetch_sub (c % usize) ≡ m % usize
unfolding fetch_sub
fetch_sub-mod m c e = omega (arith, e)

Step-counts :
    (config : GatewayConfig) (s t : GatewayServer)
    → Step config s t
    → s.connection_count ≡ counted s % usize
    → t.connection_count ≡ counted t % usize
unfolding accept start handshake_failed handshake_done handler_returned stop
Step-counts config _ _ (accepts s up) h =
    elim (Bool-cases (ltb s.connection_count config.max_connections)) [
      | inl below ↦ rw below h
      | inr full ↦ rw full h
    ]
Step-counts config _ _ (starts s n e) h = rw (h, fetch_add-mod (counted s)) (omega arith)
Step-counts config _ _ (fails s n e) h =
    rw h (fetch_sub-mod (n + s.handling) (counted s) (omega (arith, e)))
Step-counts config _ _ (opens s n e) h = rw (h, e) (omega arith)
Step-counts config _ _ (closes s n e) h =
    rw h (fetch_sub-mod (s.handshaking + n) (counted s) (omega (arith, e)))
Step-counts config _ _ (stops s up) h = h

Reaches-counts :
    (config : GatewayConfig) (s t : GatewayServer)
    → s.connection_count ≡ counted s % usize
    → Reaches config s t
    → t.connection_count ≡ counted t % usize
Reaches-counts config s t h here = h
Reaches-counts config s t h (and_then {t = u} r step) =
    Step-counts config u t step (Reaches-counts config s u h r)

-- The steps of a runtime that starts a task before the next connection is accepted.
abbrev pub IsPrompt : (config : GatewayConfig) (s t : GatewayServer) → Step config s t → Type 0
IsPrompt config _ _ (accepts s up) = s.waiting ≡ 0
IsPrompt config s t _ = Unit

abbrev pub ArePrompt : (config : GatewayConfig) (s t : GatewayServer) → Reaches config s t → Type 0
ArePrompt config s t here = Unit
ArePrompt config s t (and_then {t = u} r step) = ArePrompt config s u r × IsPrompt config u t step

-- In every state that a server reaches, the count is the number of the tasks that have started and not
-- ended, modulo the width of the counter: it never wraps below zero, and while fewer than 2^64 tasks
-- are open it is their number.
pub bind-counts :
    (config : GatewayConfig) (s : GatewayServer)
    → Reaches config bind s
    → s.connection_count ≡ counted s % usize
bind-counts config s r = Reaches-counts config bind s refl r

Step-bounded :
    (config : GatewayConfig) (s t : GatewayServer) (step : Step config s t)
    → config.max_connections < usize
    → IsPrompt config s t step
    → s.connection_count ≡ counted s % usize
    → s.waiting + counted s ≤ config.max_connections
    → t.waiting + counted t ≤ config.max_connections
unfolding accept start handshake_failed handshake_done handler_returned stop
Step-bounded config _ _ (accepts s up) fits prompt count h =
    elim (Bool-cases (ltb s.connection_count config.max_connections)) [
      | inl below ↦ rw below (
          omega
            (arith, ltb→lt s.connection_count config.max_connections below, count, prompt, h, fits))
      | inr full ↦ rw full h
    ]
Step-bounded config _ _ (starts s n e) fits prompt count h = omega (arith, e, h)
Step-bounded config _ _ (fails s n e) fits prompt count h = omega (arith, e, h)
Step-bounded config _ _ (opens s n e) fits prompt count h = omega (arith, e, h)
Step-bounded config _ _ (closes s n e) fits prompt count h = omega (arith, e, h)
Step-bounded config _ _ (stops s up) fits prompt count h = h

-- If every spawned task starts before the next connection is accepted, then there are never more
-- tasks, and so never more open connections, than `max_connections`, which fits the counter.
pub max_connections_kept :
    (config : GatewayConfig) (s : GatewayServer) (r : Reaches config bind s)
    → config.max_connections < usize
    → ArePrompt config bind s r
    → s.waiting + counted s ≤ config.max_connections
max_connections_kept config s here fits h = omega arith
max_connections_kept config s (and_then {t = u} r step) fits h =
    Step-bounded config u s step fits h.1 (bind-counts config u r)
      (max_connections_kept config u r fits h.0)

-- `n` connections accepted one after another, and no task started yet.
abbrev pub crowd : ℕ → GatewayServer
crowd n = record bind { waiting = n }

accept-crowd :
    (config : GatewayConfig) (n : ℕ)
    → 0 < config.max_connections
    → accept config (crowd n) ≡ crowd (n + 1)
unfolding accept
accept-crowd config n h = ground (arith, h)

crowded :
    (config : GatewayConfig) (n : ℕ) → 0 < config.max_connections → Reaches config bind (crowd n)
crowded config zero h = here
crowded config (suc n) h =
    subst (λ x. Reaches config bind x) (accept-crowd config n h ∙ ap crowd (omega arith))
      (and_then (crowded config n h) (accepts (crowd n) refl))

-- The tasks of a crowd that have started.
abbrev pub started : ℕ → ℕ → GatewayServer
started n k = record {
  connection_count = k % usize;
  waiting = n;
  handshaking = k;
  handling = 0;
  accepting = true;
}

started_one : (n k : ℕ) → start n (started (suc n) k) ≡ started n (k + 1)
unfolding start
started_one n k = rw (fetch_add-mod k) refl

all_start :
    (config : GatewayConfig) (s : GatewayServer) (n k : ℕ)
    → Reaches config s (started n k)
    → Reaches config s (started 0 (n + k))
all_start config s zero k r = subst (λ m. Reaches config s (started 0 m)) (omega arith) r
all_start config s (suc n) k r =
    subst (λ m. Reaches config s (started 0 m)) (omega arith)
      (all_start config s n (k + 1) (
        subst (Reaches config s) (started_one n k)
          (and_then r (starts (started (suc n) k) n refl))))

-- Otherwise the limit does not hold: the count is read before the task that raises it has started,
-- so for any positive limit a server can come to any number of open connections.
pub max_connections_exceeded :
    (config : GatewayConfig) (n : ℕ)
    → 0 < config.max_connections
    → (s : GatewayServer) × Reaches config bind s × (counted s ≡ n) × (s.waiting ≡ 0)
max_connections_exceeded config n h = (
  started 0 n,
  subst (λ m. Reaches config bind (started 0 m)) (omega arith)
      (all_start config bind n 0 (crowded config n h)),
  omega arith,
  refl,
)
