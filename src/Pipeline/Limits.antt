-- ===== src/Pipeline/Limits.antt =====
-- What a rate-limited client is told.
use sentinel_distributed_api.Prelude.{
  ℕ, ◌/◌, ◌≤◌, ◌≡◌, refl, false, some, [], arith, lookup, str_eq, max, ltb,
}
use sentinel_distributed_api.Router.{RouteDefinition, match}
use sentinel_distributed_api.RateLimit.{Redis, check_token_bucket}
use sentinel_distributed_api.Gateway.{Gateway, finished, str_of}
use sentinel_distributed_api.Pipeline.{
  Request, Pipeline, Surroundings, limit, serve, handle, rate_limited, retry_after_s,
}

module _ (redis : Redis) (pipeline : Pipeline) (around : Surroundings) (q : Request) where
  -- A request within the size limit, with a route, that the limiter denies is answered with 429, and
  -- of its own doing only the limiter's store has changed. Its Retry-After is the limiter's wait in whole seconds,
  -- rounded down but at least 1.
  pub handle_denied :
      (g : Gateway) (s : redis.Store) (route : RouteDefinition)
      → q.body_size ≤ pipeline.max_body_size_bytes
      → match pipeline.routes q.tenant_id q.method q.path ≡ some route
      → (check_token_bucket redis around.link q.rate_limit_key q.rate_limit_policy around.now_ms
          s).0.allowed
        ≡ false
      → let (d, s') =
          check_token_bucket redis around.link q.rate_limit_key q.rate_limit_policy around.now_ms
            s in
        (handle redis pipeline around q g s
          ≡ (finished (rate_limited q d), (around.checking g, s'), []))
        × ((rate_limited q d).status_code ≡ 429)
        × (lookup "Retry-After" (rate_limited q d).headers
            ≡ some (str_of (max 1 (d.retry_after_ms / 1000))))
  unfolding handle serve limit rate_limited retry_after_s lookup str_eq
  handle_denied g s route small found denied =
      (rw (not_large _ _ small, found, denied) refl, refl, refl)
    where
      not_large : (a b : ℕ) → a ≤ b → ltb b a ≡ false
      not_large a b h = ground arith
