-- ===== src/Entry/ColdStart.antt =====
-- The first requests to a gateway that has just started.
use sentinel_distributed_api.Prelude.{
  ◌<◌, ◌≡◌, refl, subst, String, List, [], arith, length, Dict, lookup,
}
use sentinel_distributed_api.Router.{BackendInstance, RouteDefinition}
use sentinel_distributed_api.Breaker.{opened}
use sentinel_distributed_api.Breaker.Failing.{init-Failing}
use sentinel_distributed_api.Gateway.{World, breaker_for}
use sentinel_distributed_api.Dispatch.Unrouted.{dispatch_all, dispatch_all-opens}
use sentinel_distributed_api.Bootstrap.Document.{Result, loaded, raised, ill_typed, ◌>>=◌}
use sentinel_distributed_api.Bootstrap.{ConfigFile, load_routes_and_backends}
use sentinel_distributed_api.Bootstrap.Warmup.{cold_routable}
use sentinel_distributed_api.Settings.{Settings}
use sentinel_distributed_api.Lifespan.{Started, started, start}
use sentinel_distributed_api.Entry.{retry_policy}

-- The instances of the started gateway are those of the file, and it has no breaker yet.
abbrev FromFile : ConfigFile → Started → Type 0
FromFile file st =
    (routes : List RouteDefinition) × (load_routes_and_backends file
      ≡ loaded (routes, st.gateway.backends_by_service))
    × (st.gateway.breakers ≡ [])

start-FromFile :
    (s : Settings) (file : ConfigFile) (st : Started) → start s file ≡ loaded st → FromFile file st
unfolding start started ◌>>=◌
start-FromFile s file st e = go (load_routes_and_backends file) refl e
  where
    go :
        (r : Result (List RouteDefinition × Dict (List BackendInstance)))
        → load_routes_and_backends file ≡ r
        → (r >>= λ c. loaded (started s c)) ≡ loaded st
        → FromFile file st
    go (loaded config) l h =
        let same : started s config ≡ st = ground (arith, h) in
        subst (FromFile file) same (config.0, l, refl)
    go (raised err) l h = cc
    go ill_typed l h = cc

-- Before the health checker has polled, 20 requests in a row to a service, answered with 503 each,
-- open its circuit, although no backend is called: whatever the file, the route and the readings of
-- the clocks. (The settings allow an attempt.)
pub cold_start_opens :
    (s : Settings) (file : ConfigFile) (st : Started) (request_id method : String)
    (route : RouteDefinition) (ws : List World)
    → start s file ≡ loaded st
    → 0 < s.retry_max_attempts
    → length ws ≡ 20
    → let r = dispatch_all request_id method route (retry_policy s) ws st.gateway in
      (r.1 ≡ []) × ((breaker_for route.backend_service_id r.0).state ≡ opened)
unfolding retry_policy
cold_start_opens s file st request_id method route ws e some_left all =
    let (routes, l, none_yet) = start-FromFile s file st e in
    dispatch_all-opens request_id method route (retry_policy s) ws st.gateway 0
      (cold_routable file routes st.gateway.backends_by_service route.backend_service_id l)
      (unfold breaker_for lookup in rw none_yet (init-Failing route.backend_service_id)) some_left
      (omega arith) (omega (arith, all))
