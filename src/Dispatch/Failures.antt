-- ===== src/Dispatch/Failures.antt =====
-- Dispatches that the open circuit ends.
use sentinel_distributed_api.Prelude.{
  ℕ, zero, suc, ◌+◌, ◌<◌, ◌≡◌, refl, String, false, [], arith, ◌==◌, lookup-insert, str_eq_refl,
}
use sentinel_distributed_api.Retry.{DeadlineTracker, RetryPolicy, remaining, start_deadline}
use sentinel_distributed_api.Router.{RouteDefinition}
use sentinel_distributed_api.Breaker.{circuit_open_error, before_request, CircuitBreaker}
use sentinel_distributed_api.Breaker.Probes.{OpenedAt, before_request_early}
use sentinel_distributed_api.Gateway.{
  World, Gateway, finished, breaker_for, set_breaker, error_result, asks,
}
use sentinel_distributed_api.Dispatch.{with_admission, attempt, follow, loop, dispatch}

pub breaker_for-set_breaker :
    (service : String) (b : CircuitBreaker) (g : Gateway)
    → breaker_for service (set_breaker service b g) ≡ b
unfolding breaker_for set_breaker
breaker_for-set_breaker service b g =
    rw (lookup-insert service service b g.breakers, str_eq_refl service) refl

pub budget_left :
    (d : DeadlineTracker) (now : ℕ) → 0 < remaining d now → (remaining d now == 0) ≡ false
budget_left d now h = ground arith

module _ (world : World) (request_id method : String) (route : RouteDefinition)
    (policy : RetryPolicy) where
  loop_open :
      (d : DeadlineTracker) (left status : ℕ) (body : String) (g : Gateway) (b : CircuitBreaker)
      → breaker_for route.backend_service_id g ≡ b
      → before_request (world.time 1 asks) b ≡ (circuit_open_error, b)
      → 0 < left
      → loop world request_id method route policy d left 0 status body g ≡ (
        finished (
            error_result 503 request_id
              "{\"error\":{\"code\":\"CIRCUIT_OPEN\",\"message\":\"Backend circuit is open\"}}"
              "circuit_breaker"),
        set_breaker route.backend_service_id b g,
        [],
      )
  unfolding loop attempt with_admission follow
  loop_open d zero status body g b eb rejected some_left = absurd (omega arith)
  loop_open d (suc left) status body g b eb rejected some_left = rw (eb, rejected) refl

  -- While the circuit of its service is open, a request with an attempt to make is answered with
  -- 503 at stage `circuit_breaker`; no backend is called and the breaker stays as it is.
  pub dispatch_open :
      (since : ℕ) (g : Gateway)
      → OpenedAt since (breaker_for route.backend_service_id g)
      → world.time 1 asks < since + (breaker_for route.backend_service_id g).config.open_duration
      → 0 < policy.max_attempts
      → let r = dispatch world request_id method route policy g in
        (r.0
          ≡ finished (
              error_result 503 request_id
                "{\"error\":{\"code\":\"CIRCUIT_OPEN\",\"message\":\"Backend circuit is open\"}}"
                "circuit_breaker"))
        × (r.2 ≡ [])
        × (breaker_for route.backend_service_id r.1 ≡ breaker_for route.backend_service_id g)
  unfolding dispatch
  dispatch_open since g o early some_left =
      let b = breaker_for route.backend_service_id g in
      let e =
        loop_open (start_deadline policy.total_deadline_ms world.start) policy.max_attempts 502
          "{\"error\":{\"code\":\"BAD_GATEWAY\"}}" (set_breaker route.backend_service_id b g) b
          (breaker_for-set_breaker route.backend_service_id b g)
          (before_request_early since b.config.open_duration (world.time 1 asks) b refl o early)
          some_left in
      rw e (
        refl,
        refl,
        breaker_for-set_breaker route.backend_service_id b
            (set_breaker route.backend_service_id b g),
      )
