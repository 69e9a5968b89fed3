-- ===== src/Entry/Correlation.antt =====
-- Every answer can be traced to its request.
use mathlib.Core.List.{Mem, mem-cons_self, mem-cons_of_mem}
use sentinel_distributed_api.Prelude.{
  ℕ, ◌≡◌, ◌⊎◌, inl, inr, refl, ◌∙◌, subst, sym, String, Option, none, some, List, [], ◌∷◌,
  Bool-cases, Dict, lookup, insert, lookup-insert, str_eq, str_eq_iff, ltb,
}
use sentinel_distributed_api.Router.{RouteDefinition, match}
use sentinel_distributed_api.RateLimit.{RedisFailureMode, Redis, RateLimitDecision}
use sentinel_distributed_api.Backpressure.{
  Acquisition, acquired, cancelled_error, backpressure_rejected,
}
use sentinel_distributed_api.Gateway.{
  HeaderValue, text, PipelineResult, Gateway, World, Reply, responds, Outcome, finished, raised,
  merge_headers, response_result, error_result, Attempt,
}
use sentinel_distributed_api.Retry.{RetryPolicy}
use sentinel_distributed_api.Dispatch.{dispatch}
use sentinel_distributed_api.Dispatch.Outcomes.{Explained, dispatch-Explained}
use sentinel_distributed_api.Pipeline.{
  Request, Pipeline, Surroundings, admit, limit, serve, handle, payload_too_large, route_not_found,
  rate_limited, overloaded,
}
use sentinel_distributed_api.Settings.{Settings}
use sentinel_distributed_api.Metrics.{Metrics}
use sentinel_distributed_api.Entry.{
  HttpRequest, request_id_of, to_request, failure_mode_of, proxy, proxy_in_mode,
}

lookup-merge_headers :
    (k : String) (d : Dict HeaderValue) (hs : Dict String)
    → (lookup k (merge_headers d hs) ≡ lookup k d)
      ⊎ ((v : String) × (lookup k (merge_headers d hs) ≡ some (text v)) × Mem (k, v) hs)
unfolding merge_headers
lookup-merge_headers k d [] = inl refl
lookup-merge_headers k d ((j, v) ∷ hs) = elim (lookup-merge_headers k (insert j (text v) d) hs) [
  | inr (w, e, m) ↦ inr (w, e, mem-cons_of_mem (j, v) m)
  | inl e ↦ elim (Bool-cases (str_eq j k)) [
    | inr other ↦ inl (e ∙ lookup-insert j k (text v) d ∙ rw other refl)
    | inl same ↦ inr (
      v,
      e ∙ lookup-insert j k (text v) d ∙ rw same refl,
      subst (λ i. Mem (k, v) ((i, v) ∷ hs)) (sym ((str_eq_iff j k).0 same)) mem-cons_self,
    )
  ]
]

-- An answer carries the request's id, or an id that a backend gave its response under the same name.
abbrev pub Correlated : (ℕ → Reply) → String → PipelineResult → Type 0
Correlated reply request_id r =
    (lookup "X-Request-ID" r.headers ≡ some (text request_id))
    ⊎ ((v : String) × (lookup "X-Request-ID" r.headers ≡ some (text v))
        × (n : ℕ) × (s : ℕ) × (headers : Dict String) × (content : String) × (reply n
            ≡ responds s headers content)
        × Mem ("X-Request-ID", v) headers)

abbrev CorrelatedOutcome : (ℕ → Reply) → String → Outcome → Type 0
CorrelatedOutcome reply request_id (finished r) = Correlated reply request_id r
CorrelatedOutcome reply request_id raised = Unit

module _ (world : World) (request_id : String) where
  response_result-Correlated :
      (n s : ℕ) (headers : Dict String) (content : String)
      → world.reply n ≡ responds s headers content
      → Correlated world.reply request_id (response_result request_id s headers content)
  unfolding response_result lookup str_eq
  response_result-Correlated n s headers content e =
      elim (lookup-merge_headers "X-Request-ID" (("X-Request-ID", text request_id) ∷ []) headers) [
        | inl own ↦ inl own
        | inr (v, given, m) ↦ inr (v, given, n, s, headers, content, e, m)
      ]

  error_result-Correlated :
      (status : ℕ) (body stage : String)
      → Correlated world.reply request_id (error_result status request_id body stage)
  unfolding error_result lookup str_eq
  error_result-Correlated status body stage = inl refl

  Explained-Correlated :
      (method : String) (route : RouteDefinition) (policy : RetryPolicy) (latest : ℕ × String)
      (o : Outcome) (sent : List Attempt)
      → Explained world request_id method route policy latest o sent
      → CorrelatedOutcome world.reply request_id o
  Explained-Correlated method route policy latest raised sent h = _
  Explained-Correlated method route policy latest (finished r) sent
        (inl (earlier, a, s, headers, content, e, replied, good, same)) =
      subst (Correlated world.reply request_id) (sym same)
        (response_result-Correlated a.number s headers content replied)
  Explained-Correlated method route policy latest (finished r) sent (inr (inl e)) =
      subst (Correlated world.reply request_id) (sym e) (error_result-Correlated _ _ _)
  Explained-Correlated method route policy latest (finished r) sent (inr (inr (inl e))) =
      subst (Correlated world.reply request_id) (sym e) (error_result-Correlated _ _ _)
  Explained-Correlated method route policy latest (finished r) sent (inr (inr (inr e))) =
      subst (Correlated world.reply request_id) (sym e) (error_result-Correlated _ _ _)

  dispatch-Correlated :
      (q : Request) (route : RouteDefinition) (g : Gateway)
      → CorrelatedOutcome world.reply request_id
          (dispatch world request_id q.method route q.retry_policy g).0
  dispatch-Correlated q route g =
      let (o, g', sent) = dispatch world request_id q.method route q.retry_policy g in
      Explained-Correlated q.method route q.retry_policy _ o sent
        (dispatch-Explained world request_id q.method route q.retry_policy g)

module _ (redis : Redis) (pipeline : Pipeline) (around : Surroundings) (q : Request) where
  abbrev Named : Outcome → Type 0
  Named = CorrelatedOutcome around.world.reply q.request_id

  admit-Named :
      (route : RouteDefinition) (a : Acquisition) (g : Gateway) (s : redis.Store)
      → Named (admit redis pipeline around q route a g s).0
  unfolding admit overloaded lookup str_eq
  admit-Named route acquired g s = dispatch-Correlated around.world q.request_id q route g
  admit-Named route cancelled_error g s = _
  admit-Named route (backpressure_rejected scope) g s = inl refl

  limit-Named :
      (route : RouteDefinition) (d : RateLimitDecision) (g : Gateway) (s : redis.Store)
      → Named (limit redis pipeline around q route d g s).0
  unfolding limit rate_limited lookup str_eq
  limit-Named route d g s = elim (Bool-cases d.allowed) [
    | inl e ↦ rw e (admit-Named route _ _ s)
    | inr e ↦ rw e (inl refl)
  ]

  serve-Named :
      (found : Option RouteDefinition) (g : Gateway) (s : redis.Store)
      → Named (serve redis pipeline around q found g s).0
  unfolding serve route_not_found error_result lookup str_eq
  serve-Named none g s = inl refl
  serve-Named (some route) g s = limit-Named route _ (around.checking g) _

  handle-Named : (g : Gateway) (s : redis.Store) → Named (handle redis pipeline around q g s).0
  unfolding handle payload_too_large error_result lookup str_eq
  handle-Named g s = elim (Bool-cases (ltb pipeline.max_body_size_bytes q.body_size)) [
    | inl e ↦ rw e (inl refl)
    | inr e ↦ rw e (serve-Named (match pipeline.routes q.tenant_id q.method q.path) g s)
  ]

module _ (redis : Redis) (s : Settings) (pipeline : Pipeline) (around : Surroundings)
    (meanwhile : Metrics → Metrics) (new_request_id : String) (duration : ℕ) (q : HttpRequest) where
  proxy_in_mode-Correlated :
      (mode : Option RedisFailureMode) (m : Metrics) (g : Gateway) (store : redis.Store)
      → CorrelatedOutcome around.world.reply
          (request_id_of new_request_id q)
          (proxy_in_mode redis s pipeline around meanwhile new_request_id duration q mode m g
            store).0
  unfolding proxy_in_mode to_request
  proxy_in_mode-Correlated none m g store = _
  proxy_in_mode-Correlated (some mode) m g store =
      handle-Named redis pipeline around (to_request s new_request_id mode q) g store

  -- Every answer to a proxied request, of whatever stage, carries in `X-Request-ID` the id of the
  -- request, or one that a backend put there under that very name.
  pub proxy-Correlated :
      (m : Metrics) (g : Gateway) (store : redis.Store) (r : PipelineResult)
      → (proxy redis s pipeline around meanwhile new_request_id duration q m g store).0 ≡ finished r
      → Correlated around.world.reply (request_id_of new_request_id q) r
  unfolding proxy
  proxy-Correlated m g store r e =
      subst (CorrelatedOutcome around.world.reply (request_id_of new_request_id q)) e
        (proxy_in_mode-Correlated (failure_mode_of s.rate_limit_default_fail_mode) m g store)
