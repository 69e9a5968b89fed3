-- ===== src/Pipeline/Stages.antt =====
-- What a request has passed when a backend is called for it, and what a refused one has touched.
use sentinel_distributed_api.Prelude.{
  ℕ, ◌≤◌, ◌<◌, ◌≡◌, ◌⊎◌, inl, inr, refl, true, false, Option, none, some, [], arith, Bool-cases,
  lt→ltb, ltb,
}
use sentinel_distributed_api.Retry.{start_deadline}
use sentinel_distributed_api.Router.{RouteDefinition, match}
use sentinel_distributed_api.RateLimit.{Redis, RateLimitDecision, check_token_bucket}
use sentinel_distributed_api.Backpressure.{
  Acquisition, acquired, cancelled_error, backpressure_rejected, acquire_all,
}
use sentinel_distributed_api.Gateway.{Gateway, finished}
use sentinel_distributed_api.Dispatch.Attempts.{Sends, dispatch-Sends}
use sentinel_distributed_api.Pipeline.{
  Request, Pipeline, Surroundings, Handled, gates, admit, limit, serve, handle, payload_too_large,
  route_not_found,
}

module _ (redis : Redis) (pipeline : Pipeline) (around : Surroundings) (q : Request) where
  -- The route, the limiter's decision and the gates all let the request through.
  abbrev pub Passed : Gateway → redis.Store → RouteDefinition → Type 0
  Passed g s route =
      (q.body_size ≤ pipeline.max_body_size_bytes)
      × (match pipeline.routes q.tenant_id q.method q.path ≡ some route)
      × ((check_token_bucket redis around.link q.rate_limit_key q.rate_limit_policy around.now_ms
            s).0.allowed
          ≡ true)
      × ((acquire_all around.waited (gates redis pipeline around q route)
            (around.checking g).concurrency).0
          ≡ acquired)

  -- No call, or a request that passed every stage and the calls that the dispatch makes for it.
  abbrev pub CallsOnlyPassed : Gateway → redis.Store → Handled redis pipeline around q → Type 0
  CallsOnlyPassed g s r =
      (r.2 ≡ [])
      ⊎ ((route : RouteDefinition) × Passed g s route
          × Sends around.world q.request_id q.method route q.retry_policy
              (start_deadline q.retry_policy.total_deadline_ms around.world.start)
              q.retry_policy.max_attempts (r.0, r.1.0, r.2))

  admit_calls :
      (g₀ : Gateway) (s₀ : redis.Store) (route : RouteDefinition) (a : Acquisition) (g : Gateway)
      (s : redis.Store)
      → (a ≡ acquired → Passed g₀ s₀ route)
      → CallsOnlyPassed g₀ s₀ (admit redis pipeline around q route a g s)
  unfolding admit
  admit_calls g₀ s₀ route acquired g s passed =
      inr (
        route,
        passed refl,
        dispatch-Sends around.world q.request_id q.method route q.retry_policy g,
      )
  admit_calls g₀ s₀ route cancelled_error g s passed = inl refl
  admit_calls g₀ s₀ route (backpressure_rejected scope) g s passed = inl refl

  limit_calls :
      (g₀ : Gateway) (s₀ : redis.Store) (route : RouteDefinition) (d : RateLimitDecision)
      (g : Gateway) (s : redis.Store)
      → (d.allowed ≡ true
          → (acquire_all around.waited (gates redis pipeline around q route) g.concurrency).0
            ≡ acquired
          → Passed g₀ s₀ route)
      → CallsOnlyPassed g₀ s₀ (limit redis pipeline around q route d g s)
  unfolding limit
  limit_calls g₀ s₀ route d g s passed = elim (Bool-cases d.allowed) [
    | inl allowed ↦ rw allowed (admit_calls g₀ s₀ route _ _ s (passed allowed))
    | inr denied ↦ rw denied (inl refl)
  ]

  ltb-false : {a b : ℕ} → ltb a b ≡ false → b ≤ a
  ltb-false h = ground arith

  serve_calls :
      (g : Gateway) (s : redis.Store) (found : Option RouteDefinition)
      → q.body_size ≤ pipeline.max_body_size_bytes
      → match pipeline.routes q.tenant_id q.method q.path ≡ found
      → CallsOnlyPassed g s (serve redis pipeline around q found g s)
  unfolding serve
  serve_calls g s none small e = inl refl
  serve_calls g s (some route) small e =
      limit_calls g s route _ (around.checking g) _ (λ allowed got. (small, e, allowed, got))

  -- A backend is called only for a request that passed the size check, the route match, the rate
  -- limit and the gates, in this order; and then at most `max_attempts` times, within the deadline.
  pub handle_calls :
      (g : Gateway) (s : redis.Store) → CallsOnlyPassed g s (handle redis pipeline around q g s)
  unfolding handle
  handle_calls g s = elim (Bool-cases (ltb pipeline.max_body_size_bytes q.body_size)) [
    | inl large ↦ rw large (inl refl)
    | inr small ↦
        rw small (
          serve_calls g s (match pipeline.routes q.tenant_id q.method q.path) (ltb-false small)
            refl)
  ]

  -- A request that is too large or has no route is answered with 413 or 404 at that stage, and
  -- nothing shared has changed: no token is taken, no gate entered, no backend called.
  pub handle_untouched :
      (g : Gateway) (s : redis.Store)
      → (pipeline.max_body_size_bytes < q.body_size)
        ⊎ (match pipeline.routes q.tenant_id q.method q.path ≡ none)
      → (handle redis pipeline around q g s ≡ (finished (payload_too_large q), (g, s), []))
        ⊎ (handle redis pipeline around q g s ≡ (finished (route_not_found q), (g, s), []))
  unfolding handle serve
  handle_untouched g s (inl large) =
      inl (rw (lt→ltb pipeline.max_body_size_bytes q.body_size large) refl)
  handle_untouched g s (inr missing) =
      elim (Bool-cases (ltb pipeline.max_body_size_bytes q.body_size)) [
        | inl large ↦ inl (rw large refl)
        | inr small ↦ inr (rw (small, missing) refl)
      ]
