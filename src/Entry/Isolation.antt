-- ===== src/Entry/Isolation.antt =====
-- The rate limit of one client does not touch another's, and each new token in the header brings a
-- new bucket.
use text.Mathlib.TextLemmas.{append_cancel_left}
use sentinel_distributed_api.Prelude.{
  ℕ, ◌<◌, ◌≡◌, ◌≢◌, inl, inr, refl, ap, ◌∙◌, String, true, none, arith, Option-cases,
}
use sentinel_distributed_api.RateLimit.{Redis, RedisFailureMode, served, check_token_bucket}
use sentinel_distributed_api.RateLimit.Rounding.{full_admits}
use sentinel_distributed_api.RateLimit.Degraded.{check_token_bucket_stores}
use sentinel_distributed_api.Gateway.{Gateway}
use sentinel_distributed_api.Pipeline.{Request, Pipeline, Surroundings, handle}
use sentinel_distributed_api.Pipeline.Metered.{handle_meters}
use sentinel_distributed_api.Settings.{Settings}
use sentinel_distributed_api.Metrics.{Metrics}
use sentinel_distributed_api.Entry.{
  HttpRequest, or_anonymous, api_key_of, rate_limit_key, rate_limit_policy, to_request,
  failure_mode_of, proxy, proxy_in_mode,
}

rate_limit_key_differs :
    (q q' : HttpRequest)
    → or_anonymous (api_key_of q) ≢ or_anonymous (api_key_of q')
    → rate_limit_key q ≢ rate_limit_key q'
unfolding rate_limit_key
rate_limit_key_differs q q' ne e = ne (append_cancel_left "rl:apikey:" _ _ e)

module _ (redis : Redis) (pipeline : Pipeline) (around : Surroundings) (q : Request) where
  handle_other :
      (other : String) (g : Gateway) (s : redis.Store)
      → 0 < q.rate_limit_policy.ttl_seconds
      → q.rate_limit_key ≢ other
      → redis.hmget other (handle redis pipeline around q g s).1.1 ≡ redis.hmget other s
  handle_other other g s positive ne = elim (handle_meters redis pipeline around q g s) [
    | inl (e, _) ↦ ap (redis.hmget other) e
    | inr (e, _) ↦
        elim (check_token_bucket_stores redis around.link q.rate_limit_key other q.rate_limit_policy
          around.now_ms s positive ne) [
            | inl same ↦ ap (redis.hmget other) (e ∙ same.1)
            | inr stored ↦ ap (redis.hmget other) e ∙ stored.1
          ]
  ]

module _ (redis : Redis) (s : Settings) (pipeline : Pipeline) (around : Surroundings)
    (meanwhile : Metrics → Metrics) (new_request_id : String) (duration : ℕ) (q : HttpRequest) where
  -- A request changes no bucket but that of its own key.
  pub proxy_isolates :
      (other : String) (m : Metrics) (g : Gateway) (store : redis.Store)
      → rate_limit_key q ≢ other
      → redis.hmget other
          (proxy redis s pipeline around meanwhile new_request_id duration q m g store).1.2
        ≡ redis.hmget other store
  unfolding proxy proxy_in_mode to_request rate_limit_policy
  proxy_isolates other m g store ne =
      elim (Option-cases (failure_mode_of s.rate_limit_default_fail_mode)) [
        | inl e ↦ rw e (refl)
        | inr (mode, e) ↦ rw e (
            handle_other redis pipeline around (to_request s new_request_id mode q) other g store
              (omega arith) ne)
      ]

-- A bucket that was never used admits a request.
pub new_bucket_admits :
    (redis : Redis) (mode : RedisFailureMode) (key : String) (now : ℕ) (store : redis.Store)
    → redis.hmget key store ≡ none
    → (check_token_bucket redis served key (rate_limit_policy mode) now store).0.allowed ≡ true
unfolding check_token_bucket rate_limit_policy
new_bucket_admits redis mode key now store new =
    rw new (full_admits redis.lua (rate_limit_policy mode) refl refl refl now)

-- A client that no longer gets tokens gets all of them by sending another token in the header: if the
-- bucket of the second key has never been used and Redis serves its check, it is admitted, whatever
-- request went before it.
pub new_key_admitted :
    (redis : Redis) (s : Settings) (pipeline : Pipeline) (around : Surroundings)
    (meanwhile : Metrics → Metrics) (new_request_id : String) (duration : ℕ) (q q' : HttpRequest)
    (mode : RedisFailureMode) (now : ℕ) (m : Metrics) (g : Gateway) (store : redis.Store)
    → or_anonymous (api_key_of q) ≢ or_anonymous (api_key_of q')
    → redis.hmget (rate_limit_key q') store ≡ none
    → let p = to_request s new_request_id mode q' in
      let after =
        (proxy redis s pipeline around meanwhile new_request_id duration q m g store).1.2 in
      (check_token_bucket redis served p.rate_limit_key p.rate_limit_policy now after).0.allowed
      ≡ true
unfolding to_request
new_key_admitted redis s pipeline around meanwhile new_request_id duration q q' mode now m g store
      differs new =
    new_bucket_admits redis mode (rate_limit_key q') now _ (
      proxy_isolates redis s pipeline around meanwhile new_request_id duration q (rate_limit_key q')
        m g store (rate_limit_key_differs q q' differs)
      ∙ new)
