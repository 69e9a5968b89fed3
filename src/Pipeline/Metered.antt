-- ===== src/Pipeline/Metered.antt =====
-- What a request does to the buckets: at most one check, before any call of a backend.
use sentinel_distributed_api.Prelude.{
  ◌≡◌, ◌⊎◌, inl, inr, refl, true, Option, none, some, [], Bool-cases, ltb,
}
use sentinel_distributed_api.Router.{RouteDefinition, match}
use sentinel_distributed_api.RateLimit.{Redis, RateLimitDecision, check_token_bucket}
use sentinel_distributed_api.Backpressure.{
  Acquisition, acquired, cancelled_error, backpressure_rejected,
}
use sentinel_distributed_api.Gateway.{Gateway}
use sentinel_distributed_api.Pipeline.{
  Request, Pipeline, Surroundings, Handled, admit, limit, serve, handle,
}

module _ (redis : Redis) (pipeline : Pipeline) (around : Surroundings) (q : Request) where
  abbrev pub Checked : redis.Store → RateLimitDecision × redis.Store
  Checked = check_token_bucket redis around.link q.rate_limit_key q.rate_limit_policy around.now_ms

  -- No check and no call, or one check, with calls only if it allows.
  abbrev pub Metered : redis.Store → Handled redis pipeline around q → Type 0
  Metered s r =
      ((r.1.1 ≡ s) × (r.2 ≡ []))
      ⊎ ((r.1.1 ≡ (Checked s).1) × ((r.2 ≡ []) ⊎ ((Checked s).0.allowed ≡ true)))

  admit_store :
      (route : RouteDefinition) (a : Acquisition) (g : Gateway) (s : redis.Store)
      → (admit redis pipeline around q route a g s).1.1 ≡ s
  unfolding admit
  admit_store route acquired g s = refl
  admit_store route cancelled_error g s = refl
  admit_store route (backpressure_rejected scope) g s = refl

  serve_meters :
      (found : Option RouteDefinition) (g : Gateway) (s : redis.Store)
      → Metered s (serve redis pipeline around q found g s)
  unfolding serve limit
  serve_meters none g s = inl (refl, refl)
  serve_meters (some route) g s = elim (Bool-cases (Checked s).0.allowed) [
    | inl e ↦ rw e (inr (admit_store route _ _ (Checked s).1, inr refl))
    | inr e ↦ rw e (inr (refl, inl refl))
  ]

  pub handle_meters :
      (g : Gateway) (s : redis.Store) → Metered s (handle redis pipeline around q g s)
  unfolding handle
  handle_meters g s = elim (Bool-cases (ltb pipeline.max_body_size_bytes q.body_size)) [
    | inl e ↦ rw e (inl (refl, refl))
    | inr e ↦ rw e (serve_meters (match pipeline.routes q.tenant_id q.method q.path) g s)
  ]
