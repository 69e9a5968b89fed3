-- ===== src/Bootstrap/Typing.antt =====
-- The documents that the loader is written for: which values they hold under which keys, and what a
-- document of that form says.
use sentinel_distributed_api.Prelude.{
  ℕ, ◌≡◌, ◌⊎◌, inl, inr, refl, sym, String, true, none, some, List, [], ◌∷◌, Dict, insert,
}
use sentinel_distributed_api.Router.{BackendInstance, RouteDefinition, unknown}
use sentinel_distributed_api.Bootstrap.Document.{
  Yaml, null, string, integer, sequence, mapping, Items, no_items, Fields, find_field, items,
  Result, loaded, ◌>>=◌, index, get_or, or_default, iterate, str_of, int_of, strs_of, key_of,
  or_empty_mapping,
}
use sentinel_distributed_api.Bootstrap.{
  contents, make_route, load_route, make_instance, load_instance, comprehend, load_services,
  load_config, load_routes_and_backends,
}
use sentinel_distributed_api.Bootstrap.RoundTrip.{encode_list, strs_of-encode}

-- The value under a key, by its kind: a text, a list of texts, or one that may be left out.
abbrev pub Text : String → Fields → String → Type 0
Text k fs s = find_field k fs ≡ some (string s)

abbrev pub Texts : String → Fields → List String → Type 0
Texts k fs ss = find_field k fs ≡ some (sequence (encode_list string ss))

abbrev pub Number : String → Fields → ℕ → Type 0
Number k fs n = find_field k fs ≡ some (integer n)

abbrev pub TextOr : String → Fields → String → String → Type 0
TextOr k fs default s = Text k fs s ⊎ ((find_field k fs ≡ none) × (s ≡ default))

abbrev pub NumberOr : String → Fields → ℕ → ℕ → Type 0
NumberOr k fs default n = Number k fs n ⊎ ((find_field k fs ≡ none) × (n ≡ default))

-- The entries under a key; none if the key is left out.
abbrev pub Entries : String → Fields → List Yaml → Type 0
Entries k fs vs =
    ((xs : Items) × (find_field k fs ≡ some (sequence xs)) × (vs ≡ items xs))
    ⊎ ((find_field k fs ≡ none) × (vs ≡ []))

-- The entry describes the route, or the instance.
abbrev pub DescribesRoute : Yaml → RouteDefinition → Type 0
DescribesRoute v r =
    (fs : Fields) × (v ≡ mapping fs)
    × Text "id" fs r.id
    × Text "tenant_id" fs r.tenant_id
    × Text "name" fs r.name
    × Text "path_pattern" fs r.path_pattern
    × Texts "http_methods" fs r.http_methods
    × Text "backend_service_id" fs r.backend_service_id
    × NumberOr "timeout_ms" fs 2000 r.timeout_ms
    × TextOr "priority" fs "NORMAL" r.priority
    × (r.enabled ≡ true)

abbrev pub DescribesInstance : Yaml → BackendInstance → Type 0
DescribesInstance v i =
    (fs : Fields) × (v ≡ mapping fs)
    × Text "id" fs i.id
    × Text "host" fs i.host
    × Number "port" fs i.port
    × NumberOr "weight" fs 1 i.weight
    × (i.status ≡ unknown)
    × (i.failure_count ≡ 0)

-- The entries describe the values, one by one.
abbrev pub Pointwise {ℓ} : {A : Type ℓ} → (Yaml → A → Type 0) → List Yaml → List A → Type 0
Pointwise R [] [] = Unit
Pointwise R (v ∷ vs) (x ∷ xs) = R v x × Pointwise R vs xs
Pointwise R _ _ = ⊥

abbrev pub DescribesService : Yaml → String × List BackendInstance → Type 0
DescribesService v (id, is) =
    (fs : Fields) × (v ≡ mapping fs)
    × Text "id" fs id
    × ((vs : List Yaml) × Entries "instances" fs vs × Pointwise DescribesInstance vs is)

-- The document describes the routes and, in its order, the services. A file with nothing in it
-- describes none.
abbrev pub Describes : Yaml → List RouteDefinition → List (String × List BackendInstance) → Type 0
Describes v routes services =
    ((fs : Fields) × (v ≡ mapping fs)
      × ((vs : List Yaml) × Entries "routes" fs vs × Pointwise DescribesRoute vs routes)
      × ((vs : List Yaml) × Entries "backend_services" fs vs
          × Pointwise DescribesService vs services))
    ⊎ ((v ≡ null) × (routes ≡ []) × (services ≡ []))

-- The instances of a service: those of its last entry.
abbrev pub collect :
    Dict (List BackendInstance) → List (String × List BackendInstance) → Dict (List BackendInstance)
collect d [] = d
collect d ((id, is) ∷ services) = collect (insert id is d) services

or_default-number :
    (k : String) (fs : Fields) (default n : ℕ)
    → NumberOr k fs default n
    → or_default (integer default) (find_field k fs) ≡ integer n
or_default-number k fs default n (inl e) = rw e refl
or_default-number k fs default n (inr (e, d)) = rw (e, d) refl

or_default-text :
    (k : String) (fs : Fields) (default s : String)
    → TextOr k fs default s
    → or_default (string default) (find_field k fs) ≡ string s
or_default-text k fs default s (inl e) = rw e refl
or_default-text k fs default s (inr (e, d)) = rw (e, d) refl

load_route-describes :
    (v : Yaml) (r : RouteDefinition) → DescribesRoute v r → load_route v ≡ loaded r
unfolding load_route make_route ◌>>=◌ index str_of int_of strs_of
load_route-describes v r (fs, e, i, t, n, p, m, b, ms, pr, on) =
    rw
      (
        e,
        i,
        t,
        n,
        p,
        m,
        b,
        or_default-number "timeout_ms" fs 2000 r.timeout_ms ms,
        or_default-text "priority" fs "NORMAL" r.priority pr,
        strs_of-encode r.http_methods,
      )
      (let off = sym on in λ j. loaded (record r { enabled = off j }))

load_instance-describes :
    (v : Yaml) (i : BackendInstance) → DescribesInstance v i → load_instance v ≡ loaded i
unfolding load_instance make_instance ◌>>=◌ index str_of int_of
load_instance-describes v i (fs, e, id, h, p, w, status, count) =
    rw (e, id, h, p, or_default-number "weight" fs 1 i.weight w)
      (let st = sym status in
        let c = sym count in λ j. loaded (record i { status = st j; failure_count = c j }))

comprehend-describes {ℓ} :
    {A : Type ℓ} (load : Yaml → Result A) (R : Yaml → A → Type 0) (vs : List Yaml) (xs : List A)
    → ((v : Yaml) (x : A) → R v x → load v ≡ loaded x)
    → Pointwise R vs xs
    → comprehend load vs ≡ loaded xs
unfolding comprehend ◌>>=◌
comprehend-describes load R [] [] h d = refl
comprehend-describes load R (v ∷ vs) (x ∷ xs) h d =
    rw (h v x d.0, comprehend-describes load R vs xs h d.1) refl
comprehend-describes load R [] (x ∷ xs) h d = elim d [ ]
comprehend-describes load R (v ∷ vs) [] h d = elim d [ ]

-- What the loader runs through under a key.
entries :
    (k : String) (fs : Fields) (vs : List Yaml)
    → Entries k fs vs
    → (v : Yaml) × (or_default (sequence no_items) (find_field k fs) ≡ v) × (iterate v ≡ loaded vs)
unfolding iterate
entries k fs vs (inl (xs, e, own)) = (sequence xs, rw e refl, rw own refl)
entries k fs vs (inr (e, none_there)) = (sequence no_items, rw e refl, rw none_there refl)

load_services-describes :
    (vs : List Yaml) (services : List (String × List BackendInstance))
    (d : Dict (List BackendInstance))
    → Pointwise DescribesService vs services
    → load_services vs d ≡ loaded (collect d services)
unfolding load_services ◌>>=◌ index key_of
load_services-describes [] [] d h = refl
load_services-describes (v ∷ vs) ((id, is) ∷ services) d ((fs, e, i, (es, listed, each)), h) =
    let (value, got, run) = entries "instances" fs es listed in
    rw
      (
        e,
        got,
        run,
        comprehend-describes load_instance DescribesInstance es is load_instance-describes each,
        i,
      )
      (load_services-describes vs services (insert id is d) h)
load_services-describes [] (x ∷ services) d h = elim h [ ]
load_services-describes (v ∷ vs) [] d h = elim h [ ]

-- A document of the form that the loader is written for is loaded without an exception, and says
-- what is loaded: every route of its list in order, enabled, and for each service the instances of
-- its last entry, unknown and without failures, with a timeout of 2000, the priority NORMAL and a
-- weight of 1 where these are left out. A key `routes`, `backend_services` or `instances` may be
-- left out, and so may all of the document.
pub load-typed :
    (v : Yaml) (routes : List RouteDefinition) (services : List (String × List BackendInstance))
    → Describes v routes services
    → load_routes_and_backends (contents v) ≡ loaded (routes, collect [] services)
unfolding load_routes_and_backends load_config or_empty_mapping ◌>>=◌
load-typed v routes services (inl (fs, e, (rs, listed_r, each_r), (ss, listed_s, each_s))) =
    let (value_r, got_r, run_r) = entries "routes" fs rs listed_r in
    let (value_s, got_s, run_s) = entries "backend_services" fs ss listed_s in
    rw
      (
        e,
        got_r,
        run_r,
        comprehend-describes load_route DescribesRoute rs routes load_route-describes each_r,
        got_s,
        run_s,
        load_services-describes ss services [] each_s,
      )
      refl
load-typed v routes services (inr (e, r, s)) =
    rw (e, r, s) (unfold get_or find_field iterate load_services comprehend in refl)
