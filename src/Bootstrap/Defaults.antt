-- ===== src/Bootstrap/Defaults.antt =====
-- What no file can set: the routes are enabled, and the instances have not been polled.
use sentinel_distributed_api.Prelude.{
  String, true, ◌≡◌, refl, subst, List, [], ◌∷◌, All, Dict, insert, Bool-cases, inl, inr, str_eq,
}
use sentinel_distributed_api.Router.{BackendInstance, RouteDefinition, unknown}
use sentinel_distributed_api.Bootstrap.Document.{
  Yaml, Result, loaded, raised, ill_typed, ◌>>=◌, or_empty_mapping,
}
use sentinel_distributed_api.Bootstrap.{
  ConfigFile, missing, invalid, contents, make_route, load_route, make_instance, load_instance,
  comprehend, load_services, load_config, load_routes_and_backends,
}

-- A predicate of what is loaded, if anything is.
Ensures {ℓ} : {A : Type ℓ} → (A → Type 0) → Result A → Type 0
Ensures P (loaded a) = P a
Ensures P (raised e) = Unit
Ensures P ill_typed = Unit

loaded-Ensures {ℓ} : {A : Type ℓ} (P : A → Type 0) (a : A) → P a → Ensures P (loaded a)
unfolding Ensures
loaded-Ensures P a h = h

bind-Ensures {ℓ κ} :
    {A : Type ℓ} {B : Type κ} (P : B → Type 0) (m : Result A) (f : A → Result B)
    → ((a : A) → Ensures P (f a))
    → Ensures P (m >>= f)
unfolding Ensures ◌>>=◌
bind-Ensures P (loaded a) f h = h a
bind-Ensures P (raised e) f h = _
bind-Ensures P ill_typed f h = _

bind_both-Ensures {ℓ κ} :
    {A : Type ℓ} {B : Type κ} (Q : A → Type 0) (P : B → Type 0) (m : Result A) (f : A → Result B)
    → Ensures Q m
    → ((a : A) → Q a → Ensures P (f a))
    → Ensures P (m >>= f)
unfolding Ensures ◌>>=◌
bind_both-Ensures Q P (loaded a) f q h = h a q
bind_both-Ensures Q P (raised e) f q h = _
bind_both-Ensures Q P ill_typed f q h = _

abbrev pub Enabled : RouteDefinition → Type 0
Enabled r = r.enabled ≡ true

abbrev pub Unpolled : BackendInstance → Type 0
Unpolled i = (i.status ≡ unknown) × (i.failure_count ≡ 0)

abbrev pub UnpolledAll : Dict (List BackendInstance) → Type 0
UnpolledAll = All (λ (kv : String × List BackendInstance). All Unpolled kv.1)

make_route-Enabled : (a b c d e f g h : Yaml) → Ensures Enabled (make_route a b c d e f g h)
unfolding make_route
make_route-Enabled a b c d e f g h = bind-Ensures Enabled _ _ λ i. bind-Ensures Enabled _ _ λ t.
    bind-Ensures Enabled _ _ λ n. bind-Ensures Enabled _ _ λ p. bind-Ensures Enabled _ _ λ m.
      bind-Ensures Enabled _ _ λ s.
        bind-Ensures Enabled _ _ λ ms. bind-Ensures Enabled _ _ λ pr. loaded-Ensures Enabled _ refl

load_route-Enabled : (r : Yaml) → Ensures Enabled (load_route r)
unfolding load_route
load_route-Enabled r = bind-Ensures Enabled _ _ λ a. bind-Ensures Enabled _ _ λ b.
    bind-Ensures Enabled _ _ λ c. bind-Ensures Enabled _ _ λ d. bind-Ensures Enabled _ _ λ e.
      bind-Ensures Enabled _ _ λ f.
        bind-Ensures Enabled _ _
          λ g. bind-Ensures Enabled _ _ λ h. make_route-Enabled a b c d e f g h

make_instance-Unpolled : (a b c d : Yaml) → Ensures Unpolled (make_instance a b c d)
unfolding make_instance
make_instance-Unpolled a b c d = bind-Ensures Unpolled _ _ λ i. bind-Ensures Unpolled _ _ λ h.
    bind-Ensures Unpolled _ _
      λ p. bind-Ensures Unpolled _ _ λ w. loaded-Ensures Unpolled _ (refl, refl)

load_instance-Unpolled : (i : Yaml) → Ensures Unpolled (load_instance i)
unfolding load_instance
load_instance-Unpolled i = bind-Ensures Unpolled _ _ λ a. bind-Ensures Unpolled _ _ λ b.
    bind-Ensures Unpolled _ _ λ c. bind-Ensures Unpolled _ _ λ d. make_instance-Unpolled a b c d

comprehend-All {ℓ} :
    {A : Type ℓ} (P : A → Type 0) (load : Yaml → Result A) (vs : List Yaml)
    → ((v : Yaml) → Ensures P (load v))
    → Ensures (All P) (comprehend load vs)
unfolding comprehend
comprehend-All P load [] h = loaded-Ensures (All P) [] _
comprehend-All P load (v ∷ vs) h = bind_both-Ensures P (All P) (load v) _ (h v) λ x px.
    bind_both-Ensures (All P) (All P) (comprehend load vs) _ (comprehend-All P load vs h)
      λ xs pxs. loaded-Ensures (All P) (x ∷ xs) (px, pxs)

insert-UnpolledAll :
    (k : String) (is : List BackendInstance) (d : Dict (List BackendInstance))
    → All Unpolled is
    → UnpolledAll d
    → UnpolledAll (insert k is d)
unfolding insert
insert-UnpolledAll k is [] p h = (p, _)
insert-UnpolledAll k is ((j, js) ∷ d) p h = elim (Bool-cases (str_eq j k)) [
  | inl e ↦ rw e (p, h.1)
  | inr e ↦ rw e (h.0, insert-UnpolledAll k is d p h.1)
]

load_services-UnpolledAll :
    (vs : List Yaml) (d : Dict (List BackendInstance))
    → UnpolledAll d
    → Ensures UnpolledAll (load_services vs d)
unfolding load_services
load_services-UnpolledAll [] d h = loaded-Ensures UnpolledAll d h
load_services-UnpolledAll (v ∷ vs) d h = bind-Ensures UnpolledAll _ _ λ value.
    bind-Ensures UnpolledAll _ _ λ entries.
      bind_both-Ensures (All Unpolled) UnpolledAll (comprehend load_instance entries) _
        (comprehend-All Unpolled load_instance entries load_instance-Unpolled)
        λ is p. bind-Ensures UnpolledAll _ _ λ id.
          bind-Ensures UnpolledAll _ _
            λ k. load_services-UnpolledAll vs (insert k is d) (insert-UnpolledAll k is d p h)

abbrev AsStarted : List RouteDefinition × Dict (List BackendInstance) → Type 0
AsStarted c = All Enabled c.0 × UnpolledAll c.1

load_config-AsStarted : (config : Yaml) → Ensures AsStarted (load_config config)
unfolding load_config
load_config-AsStarted config = bind-Ensures AsStarted _ _ λ value.
    bind-Ensures AsStarted _ _ λ entries.
      bind_both-Ensures (All Enabled) AsStarted (comprehend load_route entries) _
        (comprehend-All Enabled load_route entries load_route-Enabled)
        λ routes p. bind-Ensures AsStarted _ _ λ services. bind-Ensures AsStarted _ _ λ vs.
          bind_both-Ensures UnpolledAll AsStarted (load_services vs []) _
            (load_services-UnpolledAll vs [] _) λ d q. loaded-Ensures AsStarted (routes, d) (p, q)

load-AsStarted : (file : ConfigFile) → Ensures AsStarted (load_routes_and_backends file)
unfolding load_routes_and_backends
load-AsStarted missing = loaded-Ensures AsStarted ([], []) (_, _)
load-AsStarted invalid = unfold Ensures in _
load-AsStarted (contents config) = load_config-AsStarted (or_empty_mapping config)

-- Whatever the file says, every route that is loaded is enabled, and every instance is UNKNOWN, with
-- no failure counted.
pub load_lem :
    (file : ConfigFile) (routes : List RouteDefinition) (services : Dict (List BackendInstance))
    → load_routes_and_backends file ≡ loaded (routes, services)
    → All Enabled routes × UnpolledAll services
unfolding Ensures
load_lem file routes services e = subst (Ensures AsStarted) e (load-AsStarted file)
