-- ===== src/Bootstrap.antt =====
-- `load_routes_and_backends` of apps/gateway/bootstrap.py: what it makes of the configuration file.
-- `yaml.safe_load` is the library's: the model starts from the value that it gives. Keys of mappings
-- are texts. Not modelled: the choice of the path.
pub mod Document
pub mod RoundTrip
pub mod Typing
pub mod Defaults
pub mod Warmup
pub mod Examples
use sentinel_distributed_api.Prelude.{String, true, List, [], ◌∷◌, Dict, insert, ℕ}
use sentinel_distributed_api.Router.{BackendInstance, RouteDefinition, unknown}
use sentinel_distributed_api.Bootstrap.Document.{
  Yaml, string, integer, sequence, no_items, Result, loaded, raised, file_error, ◌>>=◌,
  or_empty_mapping, index, get_or, iterate, str_of, int_of, strs_of, key_of,
}

-- The file: not there, one that cannot be read or parsed, or what is in it.
pub data ConfigFile : Type 0 where
  missing invalid : ConfigFile
  contents : Yaml → ConfigFile

-- `RouteDefinition(...)`, its arguments found; `enabled` is the default.
unfoldable pub make_route :
    (id tenant_id name path_pattern http_methods backend_service_id timeout_ms priority : Yaml)
    → Result RouteDefinition
unfolding str_of int_of strs_of
make_route id tenant_id name path_pattern http_methods backend_service_id timeout_ms priority = do
  i ← str_of id
  t ← str_of tenant_id
  n ← str_of name
  p ← str_of path_pattern
  m ← strs_of http_methods
  b ← str_of backend_service_id
  ms ← int_of timeout_ms
  pr ← str_of priority
  loaded (record {
    id = i;
    tenant_id = t;
    name = n;
    path_pattern = p;
    http_methods = m;
    backend_service_id = b;
    timeout_ms = ms;
    priority = pr;
    enabled = true;
  })

-- One entry of `routes`.
unfoldable pub load_route : Yaml → Result RouteDefinition
unfolding index get_or make_route
load_route r = do
  id ← index "id" r
  tenant_id ← index "tenant_id" r
  name ← index "name" r
  path_pattern ← index "path_pattern" r
  http_methods ← index "http_methods" r
  backend_service_id ← index "backend_service_id" r
  timeout_ms ← get_or "timeout_ms" (integer 2000) r
  priority ← get_or "priority" (string "NORMAL") r
  make_route id tenant_id name path_pattern http_methods backend_service_id timeout_ms priority

unfoldable pub make_instance : (id host port weight : Yaml) → Result BackendInstance
unfolding str_of int_of
make_instance id host port weight = do
  i ← str_of id
  h ← str_of host
  p ← int_of port
  w ← int_of weight
  loaded (record { id = i; host = h; port = p; weight = w; status = unknown; failure_count = 0 })

-- One entry of `instances`.
unfoldable pub load_instance : Yaml → Result BackendInstance
unfolding index get_or make_instance
load_instance inst = do
  id ← index "id" inst
  host ← index "host" inst
  port ← index "port" inst
  weight ← get_or "weight" (integer 1) inst
  make_instance id host port weight

-- A list comprehension whose element may raise.
unfoldable pub comprehend {ℓ} : {A : Type ℓ} → (Yaml → Result A) → List Yaml → Result (List A)
comprehend f [] = loaded []
comprehend f (v ∷ vs) = do x ← f v; xs ← comprehend f vs; loaded (x ∷ xs)

unfoldable pub load_services :
    List Yaml → Dict (List BackendInstance) → Result (Dict (List BackendInstance))
unfolding index get_or iterate comprehend load_instance key_of
load_services [] d = loaded d
load_services (svc ∷ svcs) d = do
  value ← get_or "instances" (sequence no_items) svc
  entries ← iterate value
  instances ← comprehend load_instance entries
  id ← index "id" svc
  key ← key_of id
  load_services svcs (insert key instances d)

unfoldable pub load_config : Yaml → Result (List RouteDefinition × Dict (List BackendInstance))
unfolding get_or iterate comprehend load_route load_services
load_config config = do
  route_value ← get_or "routes" (sequence no_items) config
  route_entries ← iterate route_value
  routes ← comprehend load_route route_entries
  service_value ← get_or "backend_services" (sequence no_items) config
  services ← iterate service_value
  backends_by_service ← load_services services []
  loaded (routes, backends_by_service)

unfoldable pub load_routes_and_backends :
    ConfigFile → Result (List RouteDefinition × Dict (List BackendInstance))
unfolding load_config or_empty_mapping
load_routes_and_backends missing = loaded ([], [])
load_routes_and_backends invalid = raised file_error
load_routes_and_backends (contents config) = load_config (or_empty_mapping config)
