-- ===== src/Dispatch/Unrouted.antt =====
-- Dispatches to a service none of whose instances is routable.
use sentinel_distributed_api.Prelude.{
  ℕ, zero, suc, ◌+◌, ◌<◌, ◌≡◌, refl, ap, sym, ◌∙◌, subst, String, List, [], ◌∷◌, ◌++◌, arith,
  length, lookup,
}
use sentinel_distributed_api.Retry.{DeadlineTracker, RetryPolicy, start_deadline}
use sentinel_distributed_api.Router.{
  RouteDefinition, Selector, routable, no_healthy_backend_error, select, select_from, or_empty,
}
use sentinel_distributed_api.Breaker.{closed, opened, record_failure}
use sentinel_distributed_api.Breaker.Failing.{
  Failing, closed_admits, record_failure-Failing, record_failure_last,
}
use sentinel_distributed_api.Gateway.{
  World, Gateway, Attempt, Outcome, finished, breaker_for, set_breaker, error_result, asks, records,
  opens,
}
use sentinel_distributed_api.Dispatch.{
  with_selection, with_admission, fail_breaker, attempt, follow, loop, dispatch,
}
use sentinel_distributed_api.Dispatch.Failures.{breaker_for-set_breaker}

-- The service of a route has no routable instance.
abbrev pub Unrouted : RouteDefinition → Gateway → Type 0
Unrouted route g = routable (or_empty (lookup route.backend_service_id g.backends_by_service)) ≡ []

module _ (world : World) (request_id method : String) (route : RouteDefinition)
    (policy : RetryPolicy) where
  -- It is answered at once, and its breaker records a failure.
  pub record NoBackend (g : Gateway) (r : Outcome × Gateway × List Attempt) : Type 0 where
    pub answer :
        r.0
        ≡ finished (
            error_result 503 request_id "{\"error\":{\"code\":\"NO_HEALTHY_BACKEND\"}}"
              "backend_selection")
    pub calls : r.2 ≡ []
    pub breaker :
        breaker_for route.backend_service_id r.1
        ≡ record_failure
            (world.time 1 records)
            (world.time 1 opens)
            (breaker_for route.backend_service_id g)
    pub backends : r.1.backends_by_service ≡ g.backends_by_service

  select_nothing :
      (g : Gateway) (s : Selector)
      → Unrouted route g
      → select world.shuffle route.backend_service_id
          (or_empty (lookup route.backend_service_id g.backends_by_service))
          s
        ≡ (no_healthy_backend_error, s)
  unfolding select select_from
  select_nothing g s u = rw u refl

  loop-NoBackend :
      (d : DeadlineTracker) (left status : ℕ) (body : String) (g : Gateway)
      → Unrouted route g
      → (breaker_for route.backend_service_id g).state ≡ closed
      → NoBackend g (loop world request_id method route policy d (suc left) 0 status body g)
  unfolding loop attempt with_admission with_selection follow fail_breaker set_breaker
  loop-NoBackend d left status body g u c =
      let g' = set_breaker route.backend_service_id (breaker_for route.backend_service_id g) g in
      rw
        (
          closed_admits (world.time 1 asks) (breaker_for route.backend_service_id g) c,
          select_nothing g g.selector u,
        )
        (record {
          answer = refl;
          calls = refl;
          breaker =
              breaker_for-set_breaker route.backend_service_id _ g'
              ∙ ap (record_failure (world.time 1 records) (world.time 1 opens)) (
                  breaker_for-set_breaker route.backend_service_id
                    (breaker_for route.backend_service_id g) g);
          backends = refl;
        })

  dispatch-NoBackend :
      (g : Gateway)
      → Unrouted route g
      → (breaker_for route.backend_service_id g).state ≡ closed
      → 0 < policy.max_attempts
      → NoBackend g (dispatch world request_id method route policy g)
  unfolding dispatch
  dispatch-NoBackend g u c some_left = from policy.max_attempts some_left
    where
      service : String
      service = route.backend_service_id

      same :
          breaker_for service (set_breaker service (breaker_for service g) g)
          ≡ breaker_for service g
      same = breaker_for-set_breaker service (breaker_for service g) g

      from :
          (attempts : ℕ)
          → 0 < attempts
          → NoBackend g (
              loop world request_id method route policy
                (start_deadline policy.total_deadline_ms world.start)
                attempts
                0
                502
                "{\"error\":{\"code\":\"BAD_GATEWAY\"}}"
                (set_breaker service (breaker_for service g) g))
      from zero h = absurd (omega arith)
      from (suc left) h =
          let n =
            loop-NoBackend (start_deadline policy.total_deadline_ms world.start) left 502
              "{\"error\":{\"code\":\"BAD_GATEWAY\"}}"
              (set_breaker service (breaker_for service g) g) (unfold set_breaker in u)
              (ap (λ b. b.state) same ∙ c) in
          record {
            answer = n.answer;
            calls = n.calls;
            breaker =
                n.breaker ∙ ap (record_failure (world.time 1 records) (world.time 1 opens)) same;
            backends = n.backends ∙ (unfold set_breaker in refl);
          }

module _ (request_id method : String) (route : RouteDefinition) (policy : RetryPolicy) where
  -- Dispatches one after another, and all the calls that they make.
  unfoldable pub dispatch_all : List World → Gateway → Gateway × List Attempt
  dispatch_all [] g = (g, [])
  dispatch_all (w ∷ ws) g =
      let (o, g', sent) = dispatch w request_id method route policy g in
      let (g'', later) = dispatch_all ws g' in (g'', sent ++ later)

  pub dispatch_all-opens :
      (ws : List World) (g : Gateway) (k : ℕ)
      → Unrouted route g
      → Failing k (breaker_for route.backend_service_id g)
      → 0 < policy.max_attempts
      → k < 20
      → k + length ws ≡ 20
      → ((dispatch_all ws g).1 ≡ [])
        × ((breaker_for route.backend_service_id (dispatch_all ws g).0).state ≡ opened)
  unfolding dispatch_all
  dispatch_all-opens [] g k u f some_left few all = absurd (omega arith)
  dispatch_all-opens (w ∷ []) g k u f some_left few all =
      let n = dispatch-NoBackend w request_id method route policy g u f.state some_left in
      rw n.calls (
        refl,
        ap (λ b. b.state) n.breaker
            ∙ record_failure_last k (w.time 1 records) (w.time 1 opens)
                (breaker_for route.backend_service_id g) f (omega (arith, all)),
      )
  dispatch_all-opens (w ∷ w' ∷ ws) g k u f some_left few all =
      let n = dispatch-NoBackend w request_id method route policy g u f.state some_left in
      let g' = (dispatch w request_id method route policy g).1 in
      let still = subst (Failing (suc k)) (sym n.breaker) (
        record_failure-Failing k (w.time 1 records) (w.time 1 opens)
          (breaker_for route.backend_service_id g) f (omega (arith, all))) in
      rw n.calls (
        dispatch_all-opens (w' ∷ ws) g' (suc k)
          (subst (λ bs. routable (or_empty (lookup route.backend_service_id bs)) ≡ [])
            (sym n.backends) u)
          still some_left (omega (arith, all)) (omega (arith, all)))
