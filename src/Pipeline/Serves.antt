-- ===== src/Pipeline/Serves.antt =====
-- A request that every stage lets through is served.
use sentinel_distributed_api.Prelude.{
  ℕ, ◌+◌, ◌*◌, ◌<◌, ◌≡◌, String, false, Dict, arith, ltb, lookup,
}
use sentinel_distributed_api.Router.{
  RouteDefinition, BackendInstance, Selector, chosen, select, or_empty,
}
use sentinel_distributed_api.Breaker.{CircuitBreaker, admitted, before_request}
use sentinel_distributed_api.RateLimit.{Redis}
use sentinel_distributed_api.Backpressure.{acquire_all}
use sentinel_distributed_api.Gateway.{Gateway, breaker_for, asks, budgets, responds}
use sentinel_distributed_api.Dispatch.Serves.{Served, dispatch-Served}
use sentinel_distributed_api.Pipeline.{
  Request, Pipeline, Surroundings, Handled, gates, admit, limit, serve, handle,
}
use sentinel_distributed_api.Pipeline.Stages.{Passed}

module _ (redis : Redis) (pipeline : Pipeline) (around : Surroundings) (q : Request) where
  abbrev pub ServedBy :
      RouteDefinition
      → BackendInstance
      → ℕ
      → Dict String
      → String
      → Handled redis pipeline around q
      → Type 0
  ServedBy route i status_code headers content r =
      Served around.world q.request_id q.method route q.retry_policy i status_code headers content
        (r.0, r.1.0, r.2)

  -- If a request passes the stages up to the gates, the breaker of its service lets it in, the
  -- selector gives an instance, time is left and the instance answers with a status below 500: the
  -- caller gets that answer, and that call is the only one.
  pub handle-Served :
      (g : Gateway) (store : redis.Store) (route : RouteDefinition) (b : CircuitBreaker)
      (i : BackendInstance) (s : Selector) (status_code : ℕ) (headers : Dict String)
      (content : String)
      → Passed redis pipeline around q g store route
      → before_request
          (around.world.time 1 asks)
          (breaker_for route.backend_service_id (around.checking g))
        ≡ (admitted, b)
      → select around.world.shuffle route.backend_service_id
          (or_empty (lookup route.backend_service_id (around.checking g).backends_by_service))
          (around.checking g).selector
        ≡ (chosen i, s)
      → around.world.time 1 budgets < around.world.start + 1000 * q.retry_policy.total_deadline_ms
      → around.world.reply 1 ≡ responds status_code headers content
      → status_code < 500
      → 0 < q.retry_policy.max_attempts
      → ServedBy route i status_code headers content (handle redis pipeline around q g store)
  unfolding handle serve limit admit
  handle-Served g store route b i s status_code headers content (small, matched, allowed, got) asked
        selected budget replied good some_left =
      let fits : ltb pipeline.max_body_size_bytes q.body_size ≡ false = ground (arith, small) in
      let m =
        acquire_all around.waited (gates redis pipeline around q route)
          (around.checking g).concurrency in
      let d =
        dispatch-Served around.world q.request_id q.method route q.retry_policy
          (record (around.checking g) { concurrency = m.1 }) b i s status_code headers content
          (unfold breaker_for in asked) selected budget replied good some_left in
      rw (fits, matched, allowed, got) (record { answer = d.answer; calls = d.calls })
