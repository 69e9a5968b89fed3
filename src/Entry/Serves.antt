-- ===== src/Entry/Serves.antt =====
-- A gateway that has started and found its instances up serves requests.
use Prim.Native.String.{◌++◌}
use mathlib.Core.List.{Perm}
use sentinel_distributed_api.Prelude.{
  ℕ, ◌+◌, ◌*◌, ◌≤◌, ◌<◌, ◌≡◌, sym, ap, subst, String, true, none, some, List, ◌∷◌, All, Dict,
  lookup, length,
}
use sentinel_distributed_api.Router.{
  BackendInstance, RouteDefinition, route_matcher, match, fresh_selector, select, or_empty,
}
use sentinel_distributed_api.Router.RoundRobin.{fresh_selector-IsValid}
use sentinel_distributed_api.RateLimit.{Redis, RedisFailureMode, served, check_token_bucket}
use sentinel_distributed_api.Breaker.{init, default_config}
use sentinel_distributed_api.Breaker.Failing.{init-Failing, closed_admits}
use sentinel_distributed_api.Backpressure.{new_manager, path}
use sentinel_distributed_api.Backpressure.Free.{acquire_all-Free, path-Apart, new_manager-Free}
use sentinel_distributed_api.Health.{Answer, no_polls, run_rounds}
use sentinel_distributed_api.Health.Warmup.{AllUp}
use sentinel_distributed_api.Gateway.{
  Gateway, finished, response_result, responds, breaker_for, asks, budgets,
}
use sentinel_distributed_api.Pipeline.{Surroundings}
use sentinel_distributed_api.Pipeline.Serves.{handle-Served}
use sentinel_distributed_api.Bootstrap.Document.{loaded}
use sentinel_distributed_api.Bootstrap.{ConfigFile, load_routes_and_backends}
use sentinel_distributed_api.Bootstrap.Warmup.{warm_up}
use sentinel_distributed_api.Settings.{Settings}
use sentinel_distributed_api.Metrics.{Metrics}
use sentinel_distributed_api.Lifespan.{started, health_thresholds, concurrency_limits}
use sentinel_distributed_api.Entry.{
  HttpRequest, request_id_of, tenant_id_of, rate_limit_key, rate_limit_policy, retry_policy,
  to_request, failure_mode_of, proxy, proxy_in_mode,
}
use sentinel_distributed_api.Entry.Isolation.{new_bucket_admits}

-- The gateway that `start` builds of a file's routes and services, after rounds of the checker.
unfoldable pub warmed :
    Settings
    → List RouteDefinition
    → Dict (List BackendInstance)
    → List (String → ℕ → Answer)
    → Gateway
unfolding started run_rounds
warmed s routes services polls = record (started s (routes, services)).gateway {
  backends_by_service = (run_rounds (health_thresholds s) polls no_polls services).1;
}

module _ (redis : Redis) (s : Settings) (around : Surroundings) (meanwhile : Metrics → Metrics)
    (new_request_id : String) (duration : ℕ) (q : HttpRequest) where
  -- From the start to an answer. If the services of the file were found up in as many rounds as the
  -- settings ask for, then the first request is answered with what the backend answers, from one
  -- call, provided that: it is small enough; it matches a route whose service has an instance; Redis
  -- serves the check, has no bucket of its key, and nobody changes the gateway meanwhile; the limits, the threshold and the attempts of the
  -- settings are above 0 and their failure mode is valid; time is left; and the backend answers with a
  -- status below 500. (The shuffle permutes.)
  pub serves_after_warm_up :
      (file : ConfigFile) (routes : List RouteDefinition) (services : Dict (List BackendInstance))
      (polls : List (String → ℕ → Answer)) (mode : RedisFailureMode) (m : Metrics)
      (store : redis.Store) (route : RouteDefinition) (i : BackendInstance)
      (is : List BackendInstance) (status_code : ℕ) (headers : Dict String) (content : String)
      → load_routes_and_backends file ≡ loaded (routes, services)
      → lookup route.backend_service_id services ≡ some (i ∷ is)
      → All AllUp polls
      → s.health_check_success_threshold ≤ length polls
      → 0 < s.health_check_success_threshold
      → failure_mode_of s.rate_limit_default_fail_mode ≡ some mode
      → q.body_size ≤ s.max_body_size_bytes
      → match (route_matcher routes) (tenant_id_of q) q.method ("/" ++ q.full_path) ≡ some route
      → around.link ≡ served
      → around.checking (warmed s routes services polls) ≡ warmed s routes services polls
      → redis.hmget (rate_limit_key q) store ≡ none
      → 0 < s.max_global_concurrency
      → 0 < s.max_tenant_concurrency
      → 0 < s.max_route_concurrency
      → 0 < s.max_backend_concurrency
      → around.world.time 1 budgets < around.world.start + 1000 * s.retry_total_deadline_ms
      → around.world.reply 1 ≡ responds status_code headers content
      → status_code < 500
      → 0 < s.retry_max_attempts
      → ((l : List BackendInstance) → Perm (around.world.shuffle l) l)
      → let r =
          proxy redis s
            (started s (routes, services)).pipeline
            around
            meanwhile
            new_request_id
            duration
            q
            m
            (warmed s routes services polls)
            store in
        (r.0
          ≡ finished (response_result (request_id_of new_request_id q) status_code headers content))
        × (length r.2 ≡ 1)
  unfolding proxy proxy_in_mode to_request retry_policy
  serves_after_warm_up file routes services polls mode m store route i is status_code headers
        content loads has_service up enough positive valid small matched linked alone new global
        tenant per_route backend budget replied good attempts shuffles =
      let service : String = route.backend_service_id in
      let q' = to_request s new_request_id mode q in
      let g = warmed s routes services polls in
      let up_now =
        warm_up file routes services (health_thresholds s) polls around.world.shuffle shuffles
          service i is fresh_selector loads positive up enough has_service fresh_selector-IsValid in
      let (j, selected) = up_now.2 in
      let d =
        handle-Served redis (started s (routes, services)).pipeline around q' g store route
          (init service default_config) j
          (select around.world.shuffle service (or_empty (lookup service g.backends_by_service))
            g.selector).1
          status_code headers content
          (
            unfold started in small,
            unfold started in matched,
            subst
                (λ l.
                  (check_token_bucket redis l (rate_limit_key q) (rate_limit_policy mode)
                    around.now_ms store).0.allowed
                  ≡ true)
                (sym linked)
                (new_bucket_admits redis mode (rate_limit_key q) around.now_ms store new),
            rw alone (
                unfold warmed started in
                acquire_all-Free around.waited (path (tenant_id_of q) route.id service)
                  (new_manager (concurrency_limits s))
                  (path-Apart (tenant_id_of q) route.id service)
                  (new_manager-Free (concurrency_limits s) (tenant_id_of q) route.id service global
                    tenant per_route backend)),
          )
          (rw alone (
            unfold breaker_for warmed started lookup in
            closed_admits (around.world.time 1 asks) (init service default_config)
              (init-Failing service).state))
          (rw alone (
            unfold warmed started in
            ap
              (λ c. (
                c,
                (select around.world.shuffle service
                    (or_empty (lookup service g.backends_by_service)) g.selector).1,
              ))
              selected))
          budget replied good attempts in
      rw valid (d.answer, ap length d.calls)
