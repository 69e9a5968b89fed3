-- ===== src/Pipeline.antt =====
-- `GatewayPipeline.handle` of apps/gateway/pipeline/pipeline.py: the stages of one request, up to
-- the dispatch. Of the body only its size is read; headers, params, body and client_ip are passed on
-- to the forwarder. Not modelled: `instance_id`, which is passed on too.
pub mod Stages
pub mod Limits
pub mod Metered
pub mod Restores
pub mod Serves
pub mod Examples
use Prim.Native.String.{◌++◌}
use sentinel_distributed_api.Prelude.{
  ℕ, ◌/◌, max, String, Bool, true, false, Option, none, some, List, [], ◌∷◌, ltb, if◌then◌else◌,
}
use sentinel_distributed_api.Retry.{RetryPolicy}
use sentinel_distributed_api.Router.{RouteDefinition, RouteMatcher, match}
use sentinel_distributed_api.RateLimit.{
  Redis, Link, TokenBucketPolicy, RateLimitDecision, check_token_bucket,
}
use sentinel_distributed_api.Backpressure.{
  ConcurrencyManager, Address, path, Acquisition, acquired, cancelled_error, backpressure_rejected,
  acquire_all, release_all,
}
use sentinel_distributed_api.Gateway.{
  text, str_of, PipelineResult, Gateway, World, Attempt, Outcome, finished, raised, error_result,
}
use sentinel_distributed_api.Dispatch.{dispatch}

pub record Request : Type 0 where
  pub request_id : String
  pub tenant_id : String
  pub method : String
  pub path : String
  pub body_size : ℕ
  pub rate_limit_policy : TokenBucketPolicy
  pub rate_limit_key : String
  pub retry_policy : RetryPolicy

-- `GatewayPipeline`, what it does not change.
pub record Pipeline : Type 0 where
  pub routes : RouteMatcher
  pub max_body_size_bytes : ℕ

-- `handle` outside the dispatch: the call of Redis, its clock, and what others do: to the gateway
-- while Redis is asked, and to the gates while the request waits at one, with whether that wait is
-- cancelled.
pub record Surroundings : Type 0 where
  pub world : World
  pub link : Link
  pub now_ms : ℕ
  pub checking : Gateway → Gateway
  pub waited : Address → ConcurrencyManager → Bool × ConcurrencyManager

unfoldable pub payload_too_large : Request → PipelineResult
payload_too_large q =
    error_result 413 q.request_id "{\"error\":{\"code\":\"PAYLOAD_TOO_LARGE\"}}"
      "request_size_validation"

unfoldable pub route_not_found : Request → PipelineResult
route_not_found q =
    error_result 404 q.request_id "{\"error\":{\"code\":\"ROUTE_NOT_FOUND\"}}" "route_matching"

-- `max(1, decision.retry_after_ms // 1000)`.
unfoldable pub retry_after_s : RateLimitDecision → ℕ
retry_after_s d = max 1 (d.retry_after_ms / 1000)

unfoldable pub rate_limited : Request → RateLimitDecision → PipelineResult
unfolding retry_after_s
rate_limited q d = record {
  status_code = 429;
  headers =
      ("X-Request-ID", text q.request_id)
      ∷ ("Retry-After", str_of (retry_after_s d))
      ∷ ("X-RateLimit-Limit", str_of d.limit)
      ∷ ("X-RateLimit-Remaining", str_of d.remaining)
      ∷ [];
  body = "{\"error\":{\"code\":\"RATE_LIMITED\",\"message\":\"Rate limit exceeded\"}}";
  stage_failed = some "rate_limit";
}

unfoldable pub overloaded : Request → String → PipelineResult
overloaded q scope = record {
  status_code = 503;
  headers = ("X-Request-ID", text q.request_id) ∷ ("Retry-After", text "1") ∷ [];
  body = "{\"error\":{\"code\":\"OVERLOADED\",\"message\":\"Server is at capacity\"}}";
  stage_failed = some ("backpressure:" ++ scope);
}

module _ (redis : Redis) (pipeline : Pipeline) (around : Surroundings) (q : Request) where
  open redis use {Store}

  -- What `handle` comes to, the shared state after it, and the calls of `forward`.
  abbrev pub Handled : Type 0
  Handled = Outcome × (Gateway × Store) × List Attempt

  abbrev pub gates : RouteDefinition → List Address
  unfolding path
  gates route = path q.tenant_id route.id route.backend_service_id

  -- The `async with` and its body.
  unfoldable pub admit : RouteDefinition → Acquisition → Gateway → Store → Handled
  unfolding release_all dispatch gates
  admit route cancelled_error g s = (raised, (g, s), [])
  admit route (backpressure_rejected scope) g s = (finished (overloaded q scope), (g, s), [])
  admit route acquired g s =
      let (o, g', sent) = dispatch around.world q.request_id q.method route q.retry_policy g in
      (o, (record g' { concurrency = release_all (gates route) g'.concurrency }, s), sent)

  unfoldable pub limit : RouteDefinition → RateLimitDecision → Gateway → Store → Handled
  unfolding admit acquire_all gates
  limit route decision g s =
      let (acquisition, m) = acquire_all around.waited (gates route) g.concurrency in
      let admitted = admit route acquisition (record g { concurrency = m }) s in
      if decision.allowed then admitted else (finished (rate_limited q decision), (g, s), [])

  unfoldable pub serve : Option RouteDefinition → Gateway → Store → Handled
  unfolding limit check_token_bucket
  serve none g s = (finished (route_not_found q), (g, s), [])
  serve (some route) g s =
      let (decision, s') =
        check_token_bucket redis around.link q.rate_limit_key q.rate_limit_policy around.now_ms s in
      limit route decision (around.checking g) s'

  unfoldable pub handle : Gateway → Store → Handled
  unfolding serve match
  handle g s =
      if ltb pipeline.max_body_size_bytes q.body_size
      then (finished (payload_too_large q), (g, s), [])
      else serve (match pipeline.routes q.tenant_id q.method q.path) g s
