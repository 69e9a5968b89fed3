-- ===== src/Dispatch/Serves.antt =====
-- A dispatch whose first attempt is answered.
use sentinel_distributed_api.Prelude.{
  ℕ, zero, suc, ◌+◌, ◌*◌, ◌<◌, ◌≡◌, refl, ap, ◌∙◌, String, true, List, [], ◌∷◌, arith, Dict, min,
  rstrip_star, lookup,
}
use sentinel_distributed_api.Retry.{
  RetryPolicy, remaining, start_deadline, classify_http_status, kind_eq,
}
use sentinel_distributed_api.Router.{
  RouteDefinition, BackendInstance, Selector, chosen, select, or_empty,
}
use sentinel_distributed_api.Breaker.{admitted, before_request, CircuitBreaker}
use sentinel_distributed_api.Gateway.{
  World, Gateway, Attempt, Outcome, finished, responds, breaker_for, set_breaker, answers,
  response_result, asks, budgets,
}
use sentinel_distributed_api.Dispatch.{
  settle, proceed, with_selection, with_admission, attempt, follow, loop, dispatch,
}
use sentinel_distributed_api.Dispatch.Failures.{breaker_for-set_breaker, budget_left}

answers_below : (s : ℕ) → s < 500 → answers s ≡ true
unfolding answers classify_http_status kind_eq
answers_below s h = ground arith

module _ (world : World) (request_id method : String) (route : RouteDefinition)
    (policy : RetryPolicy) where
  -- The answer of the backend `i` to the only call, within `rest` microseconds, is what the caller
  -- gets.
  pub record Served (i : BackendInstance) (status_code : ℕ) (headers : Dict String)
      (content : String) (r : Outcome × Gateway × List Attempt) : Type 0 where
    pub answer : r.0 ≡ finished (response_result request_id status_code headers content)
    pub calls :
        r.2
        ≡ record {
          number = 1;
          target = record { host = i.host; port = i.port; path = rstrip_star route.path_pattern };
          at = world.time 1 budgets;
          per_attempt_timeout =
              min
                (remaining
                  (start_deadline policy.total_deadline_ms world.start)
                  (world.time 1 budgets))
                (1000 * route.timeout_ms);
        }
          ∷ []

  loop-Served :
      (left status : ℕ) (body : String) (g : Gateway) (b : CircuitBreaker) (i : BackendInstance)
      (s : Selector) (status_code : ℕ) (headers : Dict String) (content : String)
      → let d = start_deadline policy.total_deadline_ms world.start in
        before_request (world.time 1 asks) (breaker_for route.backend_service_id g) ≡ (admitted, b)
        → select world.shuffle route.backend_service_id
            (or_empty (lookup route.backend_service_id g.backends_by_service))
            g.selector
          ≡ (chosen i, s)
        → 0 < remaining d (world.time 1 budgets)
        → world.reply 1 ≡ responds status_code headers content
        → status_code < 500
        → Served i status_code headers content
            (loop world request_id method route policy d (suc left) 0 status body g)
  unfolding loop attempt with_admission with_selection proceed settle follow set_breaker
  loop-Served left status body g b i s status_code headers content asked selected budget replied
        good =
      let d = start_deadline policy.total_deadline_ms world.start in
      rw
        (
          asked,
          selected,
          replied,
          budget_left d (world.time 1 budgets) budget,
          answers_below status_code good,
        )
        (record { answer = refl; calls = refl })

  pub dispatch-Served :
      (g : Gateway) (b : CircuitBreaker) (i : BackendInstance) (s : Selector) (status_code : ℕ)
      (headers : Dict String) (content : String)
      → before_request (world.time 1 asks) (breaker_for route.backend_service_id g) ≡ (admitted, b)
      → select world.shuffle route.backend_service_id
          (or_empty (lookup route.backend_service_id g.backends_by_service))
          g.selector
        ≡ (chosen i, s)
      → world.time 1 budgets < world.start + 1000 * policy.total_deadline_ms
      → world.reply 1 ≡ responds status_code headers content
      → status_code < 500
      → 0 < policy.max_attempts
      → Served i status_code headers content (dispatch world request_id method route policy g)
  unfolding dispatch set_breaker
  dispatch-Served g b i s status_code headers content asked selected budget replied good some_left =
      from policy.max_attempts some_left
    where
      service : String
      service = route.backend_service_id

      first : Gateway
      first = set_breaker service (breaker_for service g) g

      from :
          (attempts : ℕ)
          → 0 < attempts
          → Served i status_code headers content (
              loop world request_id method route policy
                (start_deadline policy.total_deadline_ms world.start)
                attempts
                0
                502
                "{\"error\":{\"code\":\"BAD_GATEWAY\"}}"
                first)
      from zero h = absurd (omega arith)
      from (suc left) h =
          loop-Served left 502 "{\"error\":{\"code\":\"BAD_GATEWAY\"}}" first b i s status_code
            headers content
            (ap (before_request (world.time 1 asks)) (breaker_for-set_breaker service _ g) ∙ asked)
            selected (unfold remaining start_deadline in omega arith) replied good
