-- ===== src/Gateway/Listener/Tests.antt =====
-- crates/pes-gateway/src/server.rs: a server with room for one connection.
use prometheus_entity_sync.Base.{◌+◌, ◌≤◌, ◌%◌, ◌≡◌, refl, arith}
use prometheus_entity_sync.Gateway.Listener.{
  GatewayConfig, GatewayServer, bind, usize, accept, start, accepts, starts, Reaches, here,
  and_then,
}
use prometheus_entity_sync.Gateway.Listener.Count.{
  counted, bind-counts, max_connections_kept, max_connections_exceeded,
}

abbrev config : GatewayConfig
config = record { max_connections = 1; keepalive_interval = 30000; delta_poll_interval = 100 }

abbrev open_one : GatewayServer
open_one = start 0 (accept config bind)

one_opens : Reaches config bind open_one
unfolding accept
one_opens = and_then (and_then here (accepts bind refl)) (starts (accept config bind) 0 refl)

bind-counts_example : open_one.connection_count ≡ counted open_one % usize
bind-counts_example = bind-counts config open_one one_opens

max_connections_kept_example : open_one.waiting + counted open_one ≤ 1
unfolding one_opens
max_connections_kept_example =
    max_connections_kept config open_one one_opens (omega arith) ((tt, refl), tt)

max_connections_exceeded_example :
    (s : GatewayServer) × Reaches config bind s × (counted s ≡ 5) × (s.waiting ≡ 0)
max_connections_exceeded_example = max_connections_exceeded config 5 (omega arith)
