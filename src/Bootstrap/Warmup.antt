-- ===== src/Bootstrap/Warmup.antt =====
-- From the start of the gateway to its first answers: the configuration that is loaded, the rounds
-- of the health checker, and the selection of an instance.
use mathlib.Core.List.{Perm}
use sentinel_distributed_api.Prelude.{
  ℕ, ◌+◌, ◌≤◌, ◌<◌, ◌≡◌, inl, inr, refl, ap, ◌∙◌, subst, String, true, some, List, [], ◌∷◌, map,
  arith, All, Dict, lookup, str_eq, length, Bool-cases, Option-cases,
}
use sentinel_distributed_api.Router.{
  BackendInstance, RouteDefinition, Selector, routable, or_empty, select, chosen,
  no_healthy_backend_error, is_routable, select_from,
}
use sentinel_distributed_api.Router.RoundRobin.{IsValid}
use sentinel_distributed_api.Router.Fairness.{select_lem}
use sentinel_distributed_api.Health.{Answer, Thresholds, Counters, no_polls, run_rounds}
use sentinel_distributed_api.Health.Warmup.{AllUp, Warm, WarmAll, run_rounds-Warm}
use sentinel_distributed_api.Health.Rounds.{KeptAll, endpoint, run_rounds_keep}
use sentinel_distributed_api.Bootstrap.Document.{loaded}
use sentinel_distributed_api.Bootstrap.{ConfigFile, load_routes_and_backends}
use sentinel_distributed_api.Bootstrap.Defaults.{Unpolled, UnpolledAll, load_lem}

module _ (t : Thresholds) (positive : 0 < t.success_threshold) where
  Unpolled-Warm :
      (is : List BackendInstance) → All Unpolled is → All (Warm t positive 0 no_polls) is
  Unpolled-Warm [] h = _
  Unpolled-Warm (i ∷ is) h =
      ((omega arith, rw (h.0.0) refl, λ enough. absurd (omega arith)), Unpolled-Warm is h.1)

  UnpolledAll-Warm :
      (d : Dict (List BackendInstance)) → UnpolledAll d → WarmAll t positive 0 no_polls d
  UnpolledAll-Warm [] h = _
  UnpolledAll-Warm ((s, is) ∷ d) h = (Unpolled-Warm is h.0, UnpolledAll-Warm d h.1)

  Warm-routable :
      (k : ℕ) (c : Counters) (is : List BackendInstance)
      → t.success_threshold ≤ k
      → All (Warm t positive k c) is
      → routable is ≡ is
  Warm-routable k c [] enough h = refl
  Warm-routable k c (i ∷ is) enough h =
      let e : is_routable i ≡ true = rw (h.0.2 enough) refl in
      rw e (ap (λ js. i ∷ js) (Warm-routable k c is enough h.1))

Unpolled-routable : (is : List BackendInstance) → All Unpolled is → routable is ≡ []
Unpolled-routable [] h = refl
Unpolled-routable (i ∷ is) h = rw (h.0.0) (Unpolled-routable is h.1)

-- A predicate of every value of a dictionary holds of the one that is looked up.
All-lookup {ℓ} :
    {V : Type ℓ} (P : V → Type 0) (k : String) (v : V) (d : Dict V)
    → All (λ (kv : String × V). P kv.1) d
    → lookup k d ≡ some v
    → P v
unfolding lookup
All-lookup P k v [] h e = cc
All-lookup P k v ((j, w) ∷ d) h e = elim (Bool-cases (str_eq j k)) [
  | inl same ↦ subst P (ground (arith, e, same)) h.0
  | inr other ↦ All-lookup P k v d h.1 (ground (arith, e, other))
]

pub cold_routable :
    (file : ConfigFile) (routes : List RouteDefinition) (services : Dict (List BackendInstance))
    (service : String)
    → load_routes_and_backends file ≡ loaded (routes, services)
    → routable (or_empty (lookup service services)) ≡ []
cold_routable file routes services service e =
    let h = (load_lem file routes services e).1 in
    elim (Option-cases (lookup service services)) [
      | inl missing ↦ rw missing refl
      | inr (is, found) ↦
          rw found (Unpolled-routable is (All-lookup (All Unpolled) service is services h found))
    ]

-- Until it is polled, no service that is loaded has a backend: every selection raises
-- `NoHealthyBackendError`, for any file, any service and any selector.
pub cold_start :
    (file : ConfigFile) (routes : List RouteDefinition) (services : Dict (List BackendInstance))
    (shuffle : List BackendInstance → List BackendInstance) (service : String) (s : Selector)
    → load_routes_and_backends file ≡ loaded (routes, services)
    → select shuffle service (or_empty (lookup service services)) s ≡ (no_healthy_backend_error, s)
unfolding select select_from
cold_start file routes services shuffle service s e =
    rw (cold_routable file routes services service e) refl

KeptAll-lookup :
    (service : String) (is : List BackendInstance) (d d' : Dict (List BackendInstance))
    → KeptAll d d'
    → lookup service d ≡ some is
    → (is' : List BackendInstance) × (lookup service d' ≡ some is')
      × (map endpoint is' ≡ map endpoint is)
unfolding lookup
KeptAll-lookup service is [] [] k e = cc
KeptAll-lookup service is [] (x ∷ d') k e = absurd k
KeptAll-lookup service is (x ∷ d) [] k e = absurd k
KeptAll-lookup service is ((j, js) ∷ d) ((j', js') ∷ d') k e =
    elim (Bool-cases (str_eq j service)) [
      | inl same ↦ rw (k.0, same) (js', refl, k.1.1 ∙ ap (map endpoint) (ground (arith, e, same)))
      | inr other ↦ rw (k.0, other) (KeptAll-lookup service is d d' k.2 (ground (arith, e, other)))
    ]

-- A nonempty list of instances, all routable, always yields one.
select-routable :
    (shuffle : List BackendInstance → List BackendInstance)
    (shuffles : (l : List BackendInstance) → Perm (shuffle l) l) (service : String)
    (i : BackendInstance) (is : List BackendInstance) (s : Selector)
    → IsValid s
    → routable (i ∷ is) ≡ i ∷ is
    → (j : BackendInstance) × ((select shuffle service (i ∷ is) s).0 ≡ chosen j)
select-routable shuffle shuffles service i is s v all =
    elim (select_lem shuffle shuffles service (i ∷ is) s v) [ inl e ↦ cc | inr c ↦ (c.0, c.1) ]

-- Once every instance has answered `success_threshold` rounds in a row from the start, every
-- instance of the file is routable, and a service that has one always gets an instance. (The
-- threshold is above 0, the shuffle permutes, and the selector is one that the code can reach.)
pub warm_up :
    (file : ConfigFile) (routes : List RouteDefinition) (services : Dict (List BackendInstance))
    (t : Thresholds) (polls : List (String → ℕ → Answer))
    (shuffle : List BackendInstance → List BackendInstance)
    (shuffles : (l : List BackendInstance) → Perm (shuffle l) l) (service : String)
    (i : BackendInstance) (is : List BackendInstance) (s : Selector)
    → load_routes_and_backends file ≡ loaded (routes, services)
    → 0 < t.success_threshold
    → All AllUp polls
    → t.success_threshold ≤ length polls
    → lookup service services ≡ some (i ∷ is)
    → IsValid s
    → let now = or_empty (lookup service (run_rounds t polls no_polls services).1) in
      (map endpoint now ≡ map endpoint (i ∷ is))
      × (routable now ≡ now)
      × ((j : BackendInstance) × ((select shuffle service now s).0 ≡ chosen j))
warm_up file routes services t polls shuffle shuffles service i is s e positive up enough found v =
    let r = run_rounds t polls no_polls services in
    let warm =
      run_rounds-Warm t positive polls 0 no_polls services up
        (UnpolledAll-Warm t positive services (load_lem file routes services e).1) in
    let (js, kept, same) =
      KeptAll-lookup service (i ∷ is) services r.1 (run_rounds_keep t polls no_polls services)
        found in
    let all =
      Warm-routable t positive (length polls + 0) r.0 js (omega arith)
        (All-lookup (All (Warm t positive (length polls + 0) r.0)) service js r.1 warm kept) in
    rw kept (same, all, nonempty js same all)
  where
    nonempty :
        (js : List BackendInstance)
        → map endpoint js ≡ map endpoint (i ∷ is)
        → routable js ≡ js
        → (j : BackendInstance) × ((select shuffle service js s).0 ≡ chosen j)
    nonempty [] same all = cc
    nonempty (j ∷ js) same all = select-routable shuffle shuffles service j js s v all
