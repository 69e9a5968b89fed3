-- ===== src/Bootstrap/Examples.antt =====
-- The file of infra/docker/routes.yaml, one service of it, and the theorems applied to it.
use mathlib.Core.List.{reverse, reverse_perm}
use sentinel_distributed_api.Prelude.{
  true, List, [], ◌∷◌, ◌≡◌, refl, inl, inr, arith, Dict, lookup, insert, str_eq, map,
}
use sentinel_distributed_api.Router.{
  BackendInstance, RouteDefinition, unknown, select, chosen, fresh_selector, routable, or_empty,
}
use sentinel_distributed_api.Router.RoundRobin.{fresh_selector-IsValid}
use sentinel_distributed_api.Health.{answered, no_polls, run_rounds, Thresholds}
use sentinel_distributed_api.Health.Rounds.{endpoint}
use sentinel_distributed_api.Bootstrap.Document.{
  Yaml, null, string, integer, sequence, no_items, item, mapping, no_fields, field, loaded, raised,
  key_error, type_error, attribute_error, or_empty_mapping, find_field, index, get_or, iterate,
  ◌>>=◌, key_of,
}
use sentinel_distributed_api.Bootstrap.{
  ConfigFile, contents, load_routes_and_backends, load_config, load_services, load_instance,
  comprehend,
}
use sentinel_distributed_api.Bootstrap.RoundTrip.{encode, load-encode}
use sentinel_distributed_api.Bootstrap.Typing.{load-typed}
use sentinel_distributed_api.Bootstrap.Warmup.{warm_up}

abbrev thresholds : Thresholds
thresholds = record { failure_threshold = 3; success_threshold = 2 }

abbrev pub users_1 : BackendInstance
users_1 = record {
  id = "users-1";
  host = "demo-users";
  port = 9001;
  weight = 1;
  status = unknown;
  failure_count = 0;
}

abbrev pub users : RouteDefinition
users = record {
  id = "route-users";
  tenant_id = "default";
  name = "users";
  path_pattern = "/users/*";
  http_methods = "GET" ∷ "POST" ∷ [];
  backend_service_id = "users-service";
  timeout_ms = 2000;
  priority = "HIGH";
  enabled = true;
}

abbrev pub routes : List RouteDefinition
routes = users ∷ []

abbrev pub services : Dict (List BackendInstance)
services = ("users-service", users_1 ∷ []) ∷ []

abbrev pub file : ConfigFile
file = contents (encode routes services)

pub loads : load_routes_and_backends file ≡ loaded (routes, services)
unfolding lookup
loads = load-encode routes services (refl, _)

-- The same service, its route with the timeout, the priority and the weight left out.
abbrev terse : Yaml
terse = mapping (
    field "routes"
      (sequence (
        item
          (mapping (
            field "id" (string "route-users") (
              field "tenant_id" (string "default") (
                field "name" (string "users") (
                  field "path_pattern" (string "/users/*") (
                    field "http_methods"
                      (sequence (item (string "GET") (item (string "POST") no_items)))
                      (field "backend_service_id" (string "users-service") no_fields)))))))
          no_items))
      (field "backend_services"
        (sequence (
          item
            (mapping (
              field "id" (string "users-service") (
                field "instances"
                  (sequence (
                    item
                      (mapping (
                        field "id" (string "users-1") (
                          field "host" (string "demo-users")
                            (field "port" (integer 9001) no_fields))))
                      no_items))
                  no_fields)))
            no_items))
        no_fields))

load-typed_example :
    load_routes_and_backends (contents terse)
    ≡ loaded (record users { priority = "NORMAL" } ∷ [], services)
unfolding find_field str_eq insert
load-typed_example =
    load-typed terse (record users { priority = "NORMAL" } ∷ [])
      (("users-service", users_1 ∷ []) ∷ [])
      (inl (
        _,
        refl,
        (
          _,
          inl (_, refl, refl),
          (
            (_, refl, refl, refl, refl, refl, refl, refl, inr (refl, refl), inr (refl, refl), refl),
            _,
          ),
        ),
        (
          _,
          inl (_, refl, refl),
          (
            (
              _,
              refl,
              refl,
              (
                _,
                inl (_, refl, refl),
                ((_, refl, refl, refl, refl, inr (refl, refl), refl, refl), _),
              ),
            ),
            _,
          ),
        ),
      ))

warm_up_example :
    let now = or_empty (
      lookup "users-service"
        (run_rounds thresholds
          ((λ s n. answered 200) ∷ (λ s n. answered 204) ∷ [])
          no_polls
          services).1) in
    (map endpoint now ≡ endpoint users_1 ∷ [])
    × (routable now ≡ now)
    × ((j : BackendInstance) × ((select reverse "users-service" now fresh_selector).0 ≡ chosen j))
warm_up_example =
    warm_up file routes services thresholds ((λ s n. answered 200) ∷ (λ s n. answered 204) ∷ [])
      reverse reverse_perm "users-service" users_1 [] fresh_selector loads (omega arith)
      (λ s n. refl, (λ s n. refl, _)) (omega arith) (unfold lookup str_eq in refl)
      fresh_selector-IsValid

-- An empty file has no routes, a list is no configuration, and `routes:` with nothing after it is
-- `None`, which cannot be iterated.
nothing_configured : load_routes_and_backends (contents null) ≡ loaded ([], [])
unfolding load_routes_and_backends load_config or_empty_mapping find_field get_or iterate ◌>>=◌
    load_services comprehend
nothing_configured = refl

not_a_mapping :
    load_routes_and_backends (contents (sequence (item (integer 1) no_items)))
    ≡ raised attribute_error
unfolding load_routes_and_backends load_config or_empty_mapping get_or ◌>>=◌
not_a_mapping = refl

null_routes :
    load_routes_and_backends (contents (mapping (field "routes" null no_fields)))
    ≡ raised type_error
unfolding load_routes_and_backends load_config or_empty_mapping find_field get_or iterate ◌>>=◌
    str_eq
null_routes = refl

-- A service without an id raises only after its instances were read.
no_id :
    load_services
      (mapping (field "instances" (sequence (item (mapping no_fields) no_items)) no_fields) ∷ [])
      []
    ≡ raised (key_error "id")
unfolding load_services find_field get_or iterate index comprehend load_instance ◌>>=◌ str_eq
no_id = refl

no_instances :
    load_services (mapping (field "id" (string "a") no_fields) ∷ []) [] ≡ loaded (("a", []) ∷ [])
unfolding load_services find_field get_or iterate index comprehend key_of insert ◌>>=◌ str_eq
no_instances = refl
