-- ===== src/Server/Health.antt =====
-- crates/pes-server/src/health.rs: the handlers of the HTTP server. `render` is `RouterMetrics::render`, which
-- the prometheus crate does; what axum answers for another path is its own.
use prometheus_entity_sync.Base.{Text, codes, text_beq, Option, none, some, ℕ, Bool, if◌then◌else◌}
use prometheus_entity_sync.Router.Metrics.{RouterMetrics}

-- `i64`
pub data ℤ : Type 0 where
  pos negsuc : ℕ → ℤ

pub record HealthState : Type 0 where
  pub connection_count : ℕ
  pub router_metrics : RouterMetrics
  pub wal_replication_active : Bool
  pub lag_ms : ℤ

pub record HealthResponse : Type 0 where
  pub status : Text
  pub connections : ℕ
  pub lag_ms : ℤ

pub data Body : Type 0 where
  json : HealthResponse → Body
  text : Text → Text → Body
  empty : Body

pub record Response : Type 0 where
  pub status_code : ℕ
  pub body : Body

unfoldable pub health : HealthState → Response
health state = record {
  status_code = 200;
  body = json (record {
    status = codes "healthy";
    connections = state.connection_count;
    lag_ms = state.lag_ms;
  });
}

unfoldable pub ready : HealthState → Response
ready state =
    if state.wal_replication_active
    then record { status_code = 200; body = empty }
    else record { status_code = 503; body = empty }

module _ (render : RouterMetrics → Text) where
  unfoldable pub metrics : HealthState → Response
  metrics state = record {
    status_code = 200;
    body = text (codes "text/plain; version=0.0.4") (render state.router_metrics);
  }

  -- The answer to a GET of the path.
  unfoldable pub health_router : HealthState → Text → Option Response
  unfolding health ready metrics
  health_router state path =
      if text_beq path (codes "/health")
      then some (health state)
      else if text_beq path (codes "/ready")
      then some (ready state)
      else if text_beq path (codes "/metrics")
      then some (metrics state)
      else none
