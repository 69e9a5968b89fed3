-- ===== src/Bootstrap/RoundTrip.antt =====
-- A configuration written as a document is loaded back.
use mathlib.Core.List.{append_assoc, append-nil}
use sentinel_distributed_api.Prelude.{
  ◌∙◌, String, ◌≡◌, refl, ap, none, List, [], ◌∷◌, ◌++◌, map, arith, Dict, lookup, insert,
  lookup-insert, str_eq, str_eq_iff, All, true, Bool-cases, inl, inr,
}
use sentinel_distributed_api.Router.{BackendInstance, RouteDefinition, unknown}
use sentinel_distributed_api.Bootstrap.Document.{
  Yaml, string, integer, sequence, mapping, Items, no_items, item, no_fields, field, Result, loaded,
  ◌>>=◌, strs_of_items, strs_of, str_of, int_of, key_of, index, get_or, iterate, find_field, items,
  or_empty_mapping,
}
use sentinel_distributed_api.Bootstrap.{
  contents, make_route, load_route, make_instance, load_instance, comprehend, load_services,
  load_config, load_routes_and_backends,
}

module _ {ℓ} {A : Type ℓ} where
  abbrev pub encode_list : (A → Yaml) → List A → Items
  encode_list encode [] = no_items
  encode_list encode (x ∷ xs) = item (encode x) (encode_list encode xs)

  comprehend-encode_list :
      (encode : A → Yaml) (load : Yaml → Result A) (norm : A → A) (xs : List A)
      → ((x : A) → load (encode x) ≡ loaded (norm x))
      → comprehend load (items (encode_list encode xs)) ≡ loaded (map norm xs)
  unfolding ◌>>=◌ comprehend
  comprehend-encode_list encode load norm [] h = refl
  comprehend-encode_list encode load norm (x ∷ xs) h =
      rw (h x, comprehend-encode_list encode load norm xs h) refl

abbrev pub encode_route : RouteDefinition → Yaml
encode_route r = mapping (
    field "id" (string r.id) (
      field "tenant_id" (string r.tenant_id) (
        field "name" (string r.name) (
          field "path_pattern" (string r.path_pattern) (
            field "http_methods" (sequence (encode_list string r.http_methods)) (
              field "backend_service_id" (string r.backend_service_id) (
                field "timeout_ms" (integer r.timeout_ms)
                  (field "priority" (string r.priority) no_fields))))))))

abbrev pub encode_instance : BackendInstance → Yaml
encode_instance i = mapping (
    field "id" (string i.id) (
      field "host" (string i.host)
        (field "port" (integer i.port) (field "weight" (integer i.weight) no_fields))))

abbrev pub encode_service : String × List BackendInstance → Yaml
encode_service (id, is) = mapping (
    field "id" (string id)
      (field "instances" (sequence (encode_list encode_instance is)) no_fields))

abbrev pub encode : List RouteDefinition → Dict (List BackendInstance) → Yaml
encode routes services = mapping (
    field "routes" (sequence (encode_list encode_route routes))
      (field "backend_services" (sequence (encode_list encode_service services)) no_fields))

-- What a document does not say.
abbrev pub enable : RouteDefinition → RouteDefinition
enable r = record r { enabled = true }

abbrev pub reset : BackendInstance → BackendInstance
reset i = record i { status = unknown; failure_count = 0 }

abbrev pub reset_all : Dict (List BackendInstance) → Dict (List BackendInstance)
reset_all [] = []
reset_all ((id, is) ∷ d) = (id, map reset is) ∷ reset_all d

abbrev pub Distinct {ℓ} : {V : Type ℓ} → Dict V → Type ℓ
Distinct [] = Unit
Distinct ((k, v) ∷ d) = (lookup k d ≡ none) × Distinct d

pub strs_of-encode : (ss : List String) → strs_of_items (encode_list string ss) ≡ loaded ss
unfolding ◌>>=◌ strs_of_items str_of
strs_of-encode [] = refl
strs_of-encode (s ∷ ss) = rw (strs_of-encode ss) refl

load_route-encode : (r : RouteDefinition) → load_route (encode_route r) ≡ loaded (enable r)
unfolding ◌>>=◌ load_route make_route index get_or find_field str_eq str_of int_of strs_of
load_route-encode r = rw (strs_of-encode r.http_methods) refl

load_instance-encode : (i : BackendInstance) → load_instance (encode_instance i) ≡ loaded (reset i)
unfolding ◌>>=◌ load_instance make_instance index get_or find_field str_eq str_of int_of
load_instance-encode i = refl

module _ {ℓ} {V : Type ℓ} where
  insert_new :
      (k : String) (v : V) (d : Dict V) → lookup k d ≡ none → insert k v d ≡ d ++ (k, v) ∷ []
  unfolding insert lookup
  insert_new k v [] h = refl
  insert_new k v ((j, w) ∷ d) h = elim (Bool-cases (str_eq j k)) [
    | inl e ↦ absurd (ground (arith, h, e))
    | inr e ↦ rw e (ap (λ xs. (j, w) ∷ xs) (insert_new k v d (ground (arith, h, e))))
  ]

  -- No key of `d` is a key of `seen`.
  abbrev Apart : Dict V → Dict V → Type ℓ
  Apart seen d = All (λ (kv : String × V). lookup kv.0 seen ≡ none) d

  insert-Apart :
      (k : String) (v : V) (seen d : Dict V)
      → lookup k d ≡ none
      → Apart seen d
      → Apart (insert k v seen) d
  unfolding lookup
  insert-Apart k v seen [] h a = _
  insert-Apart k v seen ((j, w) ∷ d) h a = (
    ground (arith, h, a.0, lookup-insert k j v seen, str_eq_iff k j, str_eq_iff j k),
    insert-Apart k v seen d (ground (arith, h)) a.1,
  )

  Apart-nil : (d : Dict V) → Apart [] d
  unfolding lookup
  Apart-nil [] = _
  Apart-nil ((k, v) ∷ d) = (refl, Apart-nil d)

load_services-encode :
    (seen d : Dict (List BackendInstance))
    → Distinct d
    → Apart seen d
    → load_services (items (encode_list encode_service d)) seen ≡ loaded (seen ++ reset_all d)
unfolding ◌>>=◌ load_services index get_or find_field str_eq iterate key_of
load_services-encode seen [] h a = rw (append-nil seen) refl
load_services-encode seen ((id, is) ∷ d) h a =
    rw (comprehend-encode_list encode_instance load_instance reset is load_instance-encode) (
      load_services-encode (insert id (map reset is) seen) d h.1
        (insert-Apart id (map reset is) seen d h.0 a.1)
      ∙ rw (insert_new id (map reset is) seen a.0)
          (ap loaded (append_assoc seen ((id, map reset is) ∷ []) (reset_all d))))

-- A configuration whose services have different ids, written as a document, is loaded as it was,
-- with the routes enabled, and with the instances UNKNOWN and without failures.
pub load-encode :
    (routes : List RouteDefinition) (services : Dict (List BackendInstance))
    → Distinct services
    → load_routes_and_backends (contents (encode routes services))
      ≡ loaded (map enable routes, reset_all services)
unfolding ◌>>=◌ load_routes_and_backends load_config or_empty_mapping get_or find_field str_eq
    iterate
load-encode routes services h =
    rw
      (
        comprehend-encode_list encode_route load_route enable routes load_route-encode,
        load_services-encode [] services h (Apart-nil services),
      )
      refl
