-- ===== src/Lifespan.antt =====
-- `lifespan` of apps/gateway/main.py: what the gateway is built from at its start, and the steps in
-- which it is shut down, with `readyz`.
use sentinel_distributed_api.Prelude.{
  ℕ, zero, suc, ◌≡◌, ◌⊎◌, inl, inr, refl, String, Bool, true, false, List, [], ◌∷◌, Dict, Ratio,
}
use sentinel_distributed_api.Router.{
  BackendInstance, RouteDefinition, route_matcher, fresh_selector,
}
use sentinel_distributed_api.Backpressure.{ConcurrencyLimits, new_manager}
use sentinel_distributed_api.Health.{Thresholds}
use sentinel_distributed_api.Gateway.{Gateway}
use sentinel_distributed_api.Pipeline.{Pipeline}
use sentinel_distributed_api.Bootstrap.Document.{Result, loaded, ◌>>=◌}
use sentinel_distributed_api.Bootstrap.{ConfigFile, load_routes_and_backends}
use sentinel_distributed_api.Settings.{Settings}

-- The arguments of `ProxyForwarder(...)`.
pub record ForwarderOptions : Type 0 where
  pub connect_timeout_s : Ratio
  pub read_timeout_s : Ratio
  pub write_timeout_s : Ratio
  pub pool_timeout_s : Ratio
  pub max_connections : ℕ
  pub max_keepalive_connections : ℕ

-- What `lifespan` builds, with what it hands to the health checker.
pub record Started : Type 0 where
  pub pipeline : Pipeline
  pub gateway : Gateway
  pub forwarder : ForwarderOptions
  pub interval_s : Ratio
  pub timeout_s : Ratio
  pub thresholds : Thresholds

abbrev pub forwarder_options : Settings → ForwarderOptions
forwarder_options s = record {
  connect_timeout_s = s.connect_timeout_s;
  read_timeout_s = s.read_timeout_s;
  write_timeout_s = s.write_timeout_s;
  pool_timeout_s = s.pool_timeout_s;
  max_connections = s.max_connections;
  max_keepalive_connections = s.max_keepalive_connections;
}

abbrev pub concurrency_limits : Settings → ConcurrencyLimits
concurrency_limits s = record {
  max_global = s.max_global_concurrency;
  max_per_tenant = s.max_tenant_concurrency;
  max_per_route = s.max_route_concurrency;
  max_per_backend = s.max_backend_concurrency;
  queue_timeout_ms = s.queue_timeout_ms;
}

abbrev pub health_thresholds : Settings → Thresholds
health_thresholds s = record {
  failure_threshold = s.health_check_failure_threshold;
  success_threshold = s.health_check_success_threshold;
}

unfoldable pub started : Settings → List RouteDefinition × Dict (List BackendInstance) → Started
unfolding route_matcher fresh_selector new_manager
started s config = record {
  pipeline = record {
    routes = route_matcher config.0;
    max_body_size_bytes = s.max_body_size_bytes;
  };
  gateway = record {
    selector = fresh_selector;
    breakers = [];
    backends_by_service = config.1;
    concurrency = new_manager (concurrency_limits s);
  };
  forwarder = forwarder_options s;
  interval_s = s.health_check_interval_s;
  timeout_s = s.health_check_timeout_s;
  thresholds = health_thresholds s;
}

-- `lifespan` up to its `yield`.
unfoldable pub start : Settings → ConfigFile → Result Started
unfolding started load_routes_and_backends ◌>>=◌
start s file = do config ← load_routes_and_backends file; loaded (started s config)

-- `readyz`, by `_STATE["draining"]`: the status code and the `status` of the body.
unfoldable pub readyz : (draining : Bool) → ℕ × String
readyz true = (503, "draining")
readyz false = (200, "ready")

-- What a shutdown changes; `draining` is `_STATE["draining"]`.
pub record Process : Type 0 where
  pub draining : Bool
  pub checking_health : Bool
  pub client_open : Bool
  pub redis_open : Bool

abbrev pub serving : Process
serving = record { draining = false; checking_health = true; client_open = true; redis_open = true }

-- The `finally` of `lifespan`, step by step: after each of the last three others may run.
abbrev pub shutdown_steps : List (Process → Process)
shutdown_steps =
    (λ p. record p { draining = true })
    ∷ (λ p. record p { checking_health = false })
    ∷ (λ p. record p { client_open = false })
    ∷ (λ p. record p { redis_open = false })
    ∷ []

abbrev take_steps : ℕ → List (Process → Process) → Process → Process
take_steps zero steps p = p
take_steps (suc n) [] p = p
take_steps (suc n) (step ∷ steps) p = take_steps n steps (step p)

-- The process after the first `n` steps.
unfoldable pub shut_down : ℕ → Process
shut_down n = take_steps n shutdown_steps serving

-- The gateway reports that it drains before the health checker stops or a connection is closed.
drains_first :
    (n : ℕ)
    → ((shut_down n).checking_health ≡ false)
      ⊎ ((shut_down n).client_open ≡ false)
      ⊎ ((shut_down n).redis_open ≡ false)
    → readyz (shut_down n).draining ≡ (503, "draining")
unfolding shut_down readyz
drains_first zero h = elim h [ inl e ↦ cc | inr (inl e) ↦ cc | inr (inr e) ↦ cc ]
drains_first (suc zero) h = refl
drains_first (suc (suc zero)) h = refl
drains_first (suc (suc (suc zero))) h = refl
drains_first (suc (suc (suc (suc zero)))) h = refl
drains_first (suc (suc (suc (suc (suc n))))) h = refl
