-- ===== src/Gateway/Listener.antt =====
-- crates/pes-gateway/src/server.rs: the accept loop of `GatewayServer` and the count of connections.
-- A spawned task waits until the runtime runs it; only then it counts itself.
pub mod Count
mod Tests
use prometheus_entity_sync.Base.{
  ℕ, zero, suc, ◌+◌, ◌-◌, ◌%◌, ◌^◌, ◌<◌, ltb, Bool, true, false, if◌then◌else◌, ◌≡◌,
}

pub record GatewayConfig : Type 0 where
  pub max_connections : ℕ
  pub keepalive_interval : ℕ
  pub delta_poll_interval : ℕ

-- Times in milliseconds.
abbrev pub default_config : GatewayConfig
default_config = record {
  max_connections = 10000;
  keepalive_interval = 30000;
  delta_poll_interval = 100;
}

-- The counter, the tasks that the loop has spawned by how far they are, and whether the loop runs.
pub record GatewayServer : Type 0 where
  pub connection_count : ℕ
  pub waiting : ℕ
  pub handshaking : ℕ
  pub handling : ℕ
  pub accepting : Bool

abbrev pub bind : GatewayServer
bind = record { connection_count = 0; waiting = 0; handshaking = 0; handling = 0; accepting = true }

abbrev pub usize : ℕ
usize = 2 ^ 64

unfoldable pub fetch_add : ℕ → ℕ
fetch_add n = (n + 1) % usize

unfoldable pub fetch_sub : ℕ → ℕ
fetch_sub n = (n + (usize - 1)) % usize

-- A TCP connection arrives: it is dropped at capacity, and gets a task otherwise.
unfoldable pub accept : GatewayConfig → GatewayServer → GatewayServer
accept config s =
    if ltb s.connection_count config.max_connections
    then record s { waiting = s.waiting + 1 }
    else s

-- The steps of the spawned tasks.
unfoldable pub start : ℕ → GatewayServer → GatewayServer
unfolding fetch_add
start waiting s = record s {
  connection_count = fetch_add s.connection_count;
  waiting = waiting;
  handshaking = s.handshaking + 1;
}

unfoldable pub handshake_failed : ℕ → GatewayServer → GatewayServer
unfolding fetch_sub
handshake_failed handshaking s = record s {
  connection_count = fetch_sub s.connection_count;
  handshaking = handshaking;
}

unfoldable pub handshake_done : ℕ → GatewayServer → GatewayServer
handshake_done handshaking s = record s { handshaking = handshaking; handling = s.handling + 1 }

unfoldable pub handler_returned : ℕ → GatewayServer → GatewayServer
unfolding fetch_sub
handler_returned handling s = record s {
  connection_count = fetch_sub s.connection_count;
  handling = handling;
}

-- The loop ends: on a shutdown, or on an error of `accept`.
unfoldable pub stop : GatewayServer → GatewayServer
stop s = record s { accepting = false }

-- What the server may do next, the tasks in any order.
pub data Step (config : GatewayConfig) : GatewayServer → GatewayServer → Type 0 where
  accepts : (s : GatewayServer) → s.accepting ≡ true → Step config s (accept config s)
  starts : (s : GatewayServer) (n : ℕ) → s.waiting ≡ suc n → Step config s (start n s)
  fails : (s : GatewayServer) (n : ℕ) → s.handshaking ≡ suc n → Step config s (handshake_failed n s)
  opens : (s : GatewayServer) (n : ℕ) → s.handshaking ≡ suc n → Step config s (handshake_done n s)
  closes : (s : GatewayServer) (n : ℕ) → s.handling ≡ suc n → Step config s (handler_returned n s)
  stops : (s : GatewayServer) → s.accepting ≡ true → Step config s (stop s)

pub data Reaches (config : GatewayConfig) : GatewayServer → GatewayServer → Type 0 where
  here : {s : GatewayServer} → Reaches config s s
  and_then : {s t u : GatewayServer} → Reaches config s t → Step config t u → Reaches config s u
