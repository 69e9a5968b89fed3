-- ===== src/Pipeline/Restores.antt =====
-- The slots of a request, from its first gate to its answer.
use sentinel_distributed_api.Prelude.{
  ℕ, ◌≡◌, ◌≢◌, ◌⊎◌, inl, inr, refl, ◌∙◌, Option, none, some, Bool-cases, ltb,
}
use sentinel_distributed_api.Router.{RouteDefinition, match}
use sentinel_distributed_api.RateLimit.{Redis, RateLimitDecision}
use sentinel_distributed_api.Backpressure.{
  Address, ConcurrencyManager, Acquisition, acquired, cancelled_error, backpressure_rejected,
  release_all,
}
use sentinel_distributed_api.Backpressure.Nesting.{Same, acquire_all_restores, release_all-Same}
use sentinel_distributed_api.Gateway.{Gateway, Wait}
use sentinel_distributed_api.Dispatch.{dispatch}
use sentinel_distributed_api.Dispatch.Concurrency.{Kept, dispatch-Kept}
use sentinel_distributed_api.Pipeline.{
  Request, Pipeline, Surroundings, gates, admit, limit, serve, handle,
}

module _ (redis : Redis) (pipeline : Pipeline) (around : Surroundings) (q : Request)
    (unmoved : (g : Gateway) → Kept g (around.checking g))
    (quiet : (n : ℕ) (w : Wait) (g : Gateway) → Kept g (around.world.others n w g))
    (patient : (a : Address) (m : ConcurrencyManager) → Same (around.waited a m).1 m) where
  admit-Kept :
      (route : RouteDefinition) (a : Acquisition) (m : ConcurrencyManager) (g : Gateway)
      (s : redis.Store)
      → ((a ≡ acquired) × Same (release_all (gates redis pipeline around q route) m) g.concurrency)
        ⊎ ((a ≢ acquired) × Same m g.concurrency)
      → Kept g (admit redis pipeline around q route a (record g { concurrency = m }) s).1.0
  unfolding admit
  admit-Kept route acquired m g s (inl (e, same)) =
      let h = record g { concurrency = m } in
      let during = dispatch-Kept around.world q.request_id q.method route q.retry_policy quiet h in
      λ a.
        release_all-Same (gates redis pipeline around q route)
          (dispatch around.world q.request_id q.method route q.retry_policy h).1.concurrency m
          during a
        ∙ same a
  admit-Kept route acquired m g s (inr (ne, same)) = absurd (ne refl)
  admit-Kept route cancelled_error m g s (inl (e, same)) = absurd (cc)
  admit-Kept route cancelled_error m g s (inr (ne, same)) = same
  admit-Kept route (backpressure_rejected scope) m g s (inl (e, same)) = absurd (cc)
  admit-Kept route (backpressure_rejected scope) m g s (inr (ne, same)) = same

  limit-Kept :
      (route : RouteDefinition) (d : RateLimitDecision) (g : Gateway) (s : redis.Store)
      → Kept g (limit redis pipeline around q route d g s).1.0
  unfolding limit
  limit-Kept route d g s = elim (Bool-cases d.allowed) [
    | inl allowed ↦ rw allowed (
        admit-Kept route _ _ g s (
          acquire_all_restores around.waited patient (gates redis pipeline around q route)
            g.concurrency))
    | inr denied ↦ rw denied (λ a. refl)
  ]

  serve-Kept :
      (found : Option RouteDefinition) (g : Gateway) (s : redis.Store)
      → Kept g (serve redis pipeline around q found g s).1.0
  unfolding serve
  serve-Kept none g s = λ a. refl
  serve-Kept (some route) g s = λ a. limit-Kept route _ (around.checking g) _ a ∙ unmoved g a

  -- If what other requests do to the gates while this one waits, for Redis, a gate or a backend, cancels
  -- out, a request leaves every
  -- gate as it found it, however it ends: answered, rejected at an inner gate, cancelled while it
  -- waits at one, or by an exception of the dispatch.
  pub handle_restores :
      (g : Gateway) (s : redis.Store) → Kept g (handle redis pipeline around q g s).1.0
  unfolding handle
  handle_restores g s = elim (Bool-cases (ltb pipeline.max_body_size_bytes q.body_size)) [
    | inl large ↦ rw large (λ a. refl)
    | inr small ↦ rw small (serve-Kept (match pipeline.routes q.tenant_id q.method q.path) g s)
  ]
