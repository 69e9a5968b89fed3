-- ===== src/Router/Examples.antt =====
-- Routes and instances of infra/docker/routes.yaml and of the unit tests, and the theorems applied.
use mathlib.Core.List.{Perm, reverse, reverse_perm}
use sentinel_distributed_api.Glob.{fnmatch}
use sentinel_distributed_api.Prelude.{
  ◌≡◌, refl, true, false, none, some, List, [], ◌∷◌, map, lookup, insert, str_eq, upper, length,
  find, ◌&&◌,
}
use sentinel_distributed_api.Router.{
  BackendInstance, healthy, draining, RouteDefinition, route_matcher, serves, match, chosen,
  fresh_selector, select, routable, key,
}
use sentinel_distributed_api.Router.Matching.{match-route_matcher}
use sentinel_distributed_api.Router.RoundRobin.{fresh_selector-IsValid, expand_keys}
use sentinel_distributed_api.Router.Fairness.{select_many, select_many-fair}

abbrev users : RouteDefinition
users = record {
  id = "route-users";
  tenant_id = "default";
  name = "users";
  path_pattern = "/users/*";
  http_methods = "GET" ∷ "POST" ∷ [];
  backend_service_id = "users-service";
  timeout_ms = 2000;
  priority = "HIGH";
  enabled = true;
}

abbrev disabled : RouteDefinition
disabled = record users { id = "route-old"; enabled = false }

abbrev routes : List RouteDefinition
routes = disabled ∷ users ∷ []

matches_users : match (route_matcher routes) "default" "get" "/users/42" ≡ some users
unfolding match route_matcher lookup insert serves fnmatch str_eq upper
matches_users = refl

wrong_tenant : match (route_matcher routes) "acme" "GET" "/users/42" ≡ none
unfolding matches_users
wrong_tenant = refl

wrong_method : match (route_matcher routes) "default" "DELETE" "/users/42" ≡ none
unfolding matches_users
wrong_method = refl

sets :
    (fnmatch "/v2/x" "/v[1-3]/?" ≡ true)
    × (fnmatch "/v4/x" "/v[!1-3]/*" ≡ true)
    × (fnmatch "a[b" "a[b" ≡ true)
    × (fnmatch "a]" "a[]]" ≡ true)
unfolding fnmatch
sets = (refl, refl, refl, refl)

match-route_matcher_example :
    match (route_matcher routes) "default" "GET" "/users/42"
    ≡ find (λ r. str_eq r.tenant_id "default" && serves "GET" "/users/42" r) routes
match-route_matcher_example = match-route_matcher routes "default" "GET" "/users/42"

abbrev heavy : BackendInstance
heavy = record {
  id = "heavy";
  host = "a";
  port = 1;
  weight = 3;
  status = healthy;
  failure_count = 0;
}

abbrev light : BackendInstance
light = record {
  id = "light";
  host = "b";
  port = 2;
  weight = 1;
  status = healthy;
  failure_count = 0;
}

abbrev leaving : BackendInstance
leaving = record {
  id = "leaving";
  host = "c";
  port = 3;
  weight = 1;
  status = draining;
  failure_count = 0;
}

abbrev instances : List BackendInstance
instances = heavy ∷ leaving ∷ light ∷ []

-- A round of four, and the next one: three for the heavy instance, none for the draining one.
two_rounds :
    (select_many reverse 5 "svc" instances fresh_selector).0
    ≡ chosen light ∷ chosen heavy ∷ chosen heavy ∷ chosen heavy ∷ chosen light ∷ []
unfolding select_many select fresh_selector lookup insert str_eq
two_rounds = refl

select_many-fair_example :
    (items : List BackendInstance) × ((select_many reverse
        (length items)
        "svc"
        instances
        fresh_selector).0
      ≡ map chosen items)
    × Perm (map key items) (expand_keys (map key (routable instances)))
select_many-fair_example =
    select_many-fair reverse reverse_perm "svc" instances fresh_selector fresh_selector-IsValid
      (λ e. cc)
