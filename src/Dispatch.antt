-- ===== src/Dispatch.antt =====
-- `GatewayPipeline._dispatch_with_resilience` of apps/gateway/pipeline/pipeline.py: the attempts of
-- one request that was let in. What happens outside the request is a `World`: clock readings, the
-- replies of `ProxyForwarder.forward`, the jitter's draws, and what other requests and the health
-- checker do to the shared state while this one waits. Times are in microseconds.
pub mod Attempts
pub mod Retries
pub mod Targets
pub mod Outcomes
pub mod Failures
pub mod Unrouted
pub mod Serves
pub mod Outage
pub mod Concurrency
pub mod Examples
use sentinel_distributed_api.Prelude.{
  ℕ, zero, suc, ◌+◌, ◌*◌, min, String, Bool, true, false, not, ◌||◌, Option, none, some, List, [],
  ◌∷◌, ◌++◌, ltb, ◌==◌, if◌then◌else◌, Dict, lookup, insert, rstrip_star,
}
use sentinel_distributed_api.Breaker.{
  CircuitState, opened, CircuitBreaker, Admission, admitted, circuit_open_error, init,
  default_config, refresh, before_request, record_success, record_failure,
}
use sentinel_distributed_api.Retry.{
  FailureKind, connection_error, timeout, success, kind_eq, RetryPolicy, is_retryable,
  compute_backoff, DeadlineTracker, start_deadline, remaining, has_budget_for, classify_http_status,
}
use sentinel_distributed_api.Router.{
  BackendInstance, RouteDefinition, Selector, Selection, chosen, no_healthy_backend_error,
  internal_error, select, or_empty,
}
use sentinel_distributed_api.Backpressure.{ConcurrencyManager}
use sentinel_distributed_api.Gateway.{
  Attempt, Ending, Gateway, Outcome, Reply, World, answers, asks, backs_off, breaker_for, breaks,
  budgets, checks, connect_error, error_result, finished, forwarding, is_open, opens, other_error,
  raised, raises, records, responds, response_result, retries, returns, set_breaker, sleeping,
  timed_out,
}

module _ (world : World) (request_id method : String) (route : RouteDefinition)
    (policy : RetryPolicy) where
  abbrev service : String
  service = route.backend_service_id

  -- `breaker.record_failure()` and `breaker.record_success()` in attempt `n`.
  unfoldable pub fail_breaker : ℕ → Gateway → Gateway
  unfolding breaker_for set_breaker
  fail_breaker n g =
      set_breaker service
        (record_failure (world.time n records) (world.time n opens) (breaker_for service g)) g

  unfoldable pub pass_breaker : ℕ → Gateway → Gateway
  unfolding breaker_for set_breaker
  pass_breaker n g =
      set_breaker service (record_success (world.time n records) (breaker_for service g)) g

  -- The end of a round, with `left` attempts left after it.
  unfoldable pub after_failure :
      DeadlineTracker → (n left : ℕ) → FailureKind → ℕ → String → Gateway → Ending × Gateway
  unfolding breaker_for set_breaker
  after_failure deadline n left kind status body g =
      let b = refresh (world.time n checks) (breaker_for service g) in
      let g' = set_breaker service b g in
      let backoff = compute_backoff n policy.base_backoff_ms (world.draw n) in
      if not (is_retryable method kind policy (is_open b.state))
      then (breaks status body, g')
      else if left == 0
      then (breaks status body, g')
      else if not (has_budget_for deadline backoff (world.time n backs_off))
      then (breaks status body, g')
      else (if world.cancelled n then raises else retries status body, world.others n sleeping g')

  -- What follows the call of `forward`.
  unfoldable pub settle :
      DeadlineTracker → (n left : ℕ) → ℕ → String → Reply → Gateway → Ending × Gateway
  unfolding after_failure fail_breaker pass_breaker answers
  settle deadline n left status body (responds s headers content) g =
      if answers s
      then (
        returns (response_result request_id s headers content),
        if ltb s 500 then pass_breaker n g else g,
      )
      else after_failure deadline n left (classify_http_status s) s content (fail_breaker n g)
  settle deadline n left status body connect_error g =
      after_failure deadline n left connection_error status body (fail_breaker n g)
  settle deadline n left status body timed_out g =
      after_failure deadline n left timeout status body (fail_breaker n g)
  settle deadline n left status body other_error g = (raises, g)

  -- From the choice of an instance on.
  unfoldable pub proceed :
      DeadlineTracker
      → (n left : ℕ) → ℕ
      → String
      → BackendInstance
      → Gateway
      → Ending × Gateway × List Attempt
  unfolding settle fail_breaker
  proceed deadline n left status body instance' g =
      let at = world.time n budgets in
      let rest = remaining deadline at in
      let (e, g') =
        settle deadline n left status body (world.reply n) (world.others n forwarding g) in
      if rest == 0 then (breaks status body, fail_breaker n g, []) else (
        e,
        g',
        record {
          number = n;
          target = record {
            host = instance'.host;
            port = instance'.port;
            path = rstrip_star route.path_pattern;
          };
          at = at;
          per_attempt_timeout = min rest (1000 * route.timeout_ms);
        }
            ∷ [],
      )

  unfoldable pub with_selection :
      DeadlineTracker
      → (n left : ℕ) → ℕ
      → String
      → Selection
      → Gateway
      → Ending × Gateway × List Attempt
  unfolding proceed fail_breaker
  with_selection deadline n left status body (chosen i) g = proceed deadline n left status body i g
  with_selection deadline n left status body no_healthy_backend_error g = (
    returns (
        error_result 503 request_id "{\"error\":{\"code\":\"NO_HEALTHY_BACKEND\"}}"
          "backend_selection"),
    fail_breaker n g,
    [],
  )
  with_selection deadline n left status body internal_error g = (raises, g, [])

  unfoldable pub with_admission :
      DeadlineTracker
      → (n left : ℕ) → ℕ
      → String
      → Admission
      → Gateway
      → Ending × Gateway × List Attempt
  unfolding with_selection
  with_admission deadline n left status body circuit_open_error g = (
    returns (
        error_result 503 request_id
          "{\"error\":{\"code\":\"CIRCUIT_OPEN\",\"message\":\"Backend circuit is open\"}}"
          "circuit_breaker"),
    g,
    [],
  )
  with_admission deadline n left status body admitted g =
      let (selection, s) =
        select world.shuffle service (or_empty (lookup service g.backends_by_service)) g.selector in
      with_selection deadline n left status body selection (record g { selector = s })

  -- One round of the `while` loop.
  unfoldable pub attempt :
      DeadlineTracker → (n left : ℕ) → ℕ → String → Gateway → Ending × Gateway × List Attempt
  unfolding with_admission breaker_for set_breaker
  attempt deadline n left status body g =
      let (admission, b) = before_request (world.time n asks) (breaker_for service g) in
      with_admission deadline n left status body admission (set_breaker service b g)

  -- What follows a round, `again` being the rest of the loop.
  unfoldable pub follow :
      (ℕ → String → Gateway → Outcome × Gateway × List Attempt)
      → Ending
      → Gateway
      → List Attempt
      → Outcome × Gateway × List Attempt
  follow again (returns r) g sent = (finished r, g, sent)
  follow again raises g sent = (raised, g, sent)
  follow again (breaks status body) g sent =
      (finished (error_result status request_id body "proxy"), g, sent)
  follow again (retries status body) g sent =
      let (o, g', later) = again status body g in (o, g', sent ++ later)

  -- The loop with `left` attempts left, `n` made.
  unfoldable pub loop :
      DeadlineTracker → (left n : ℕ) → ℕ → String → Gateway → Outcome × Gateway × List Attempt
  unfolding follow attempt
  loop deadline zero n status body g =
      (finished (error_result status request_id body "proxy"), g, [])
  loop deadline (suc left) n status body g =
      let (e, g', sent) = attempt deadline (suc n) left status body g in
      follow (loop deadline left (suc n)) e g' sent

  -- The whole method: its outcome, the shared state after it, and the calls of `forward` it made.
  unfoldable pub dispatch : Gateway → Outcome × Gateway × List Attempt
  unfolding loop breaker_for set_breaker
  dispatch g =
      loop (start_deadline policy.total_deadline_ms world.start) policy.max_attempts 0 502
        "{\"error\":{\"code\":\"BAD_GATEWAY\"}}" (set_breaker service (breaker_for service g) g)
