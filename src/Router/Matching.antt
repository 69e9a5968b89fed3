-- ===== src/Router/Matching.antt =====
-- The grouped routes against the plain list that the matcher was built from.
use sentinel_distributed_api.Prelude.{
  ◌≡◌, refl, sym, ◌∙◌, ap, String, Bool, true, ◌&&◌, some, List, [], ◌∷◌, ◌++◌, map, arith, keep,
  find, any, lookup, lookup-insert, str_eq, str_eq_iff, upper, &&-split,
}
use mathlib.Core.List.{append-nil, append_assoc}
use sentinel_distributed_api.Glob.{fnmatch}
use sentinel_distributed_api.Router.{
  RouteDefinition, RouteMatcher, or_empty, add_route, add_routes, route_matcher, serves, match,
}

abbrev of_tenant : String → List RouteDefinition → List RouteDefinition
of_tenant t = keep (λ r. str_eq r.tenant_id t)

lookup-add_route :
    (t : String) (m : RouteMatcher) (r : RouteDefinition)
    → or_empty (lookup t (add_route m r)) ≡ or_empty (lookup t m) ++ of_tenant t (r ∷ [])
unfolding add_route
lookup-add_route t m r = ground (
  arith,
  lookup-insert r.tenant_id t (or_empty (lookup r.tenant_id m) ++ r ∷ []) m,
  str_eq_iff r.tenant_id t,
  append-nil (or_empty (lookup t m)),
)

of_tenant-cons :
    (t : String) (r : RouteDefinition) (rs : List RouteDefinition)
    → of_tenant t (r ∷ []) ++ of_tenant t rs ≡ of_tenant t (r ∷ rs)
of_tenant-cons t r rs = ground arith

lookup-add_routes :
    (t : String) (m : RouteMatcher) (rs : List RouteDefinition)
    → or_empty (lookup t (add_routes m rs)) ≡ or_empty (lookup t m) ++ of_tenant t rs
unfolding add_routes
lookup-add_routes t m [] = sym (append-nil _)
lookup-add_routes t m (r ∷ rs) =
    lookup-add_routes t (add_route m r) rs
    ∙ ap (λ xs. xs ++ of_tenant t rs) (lookup-add_route t m r)
    ∙ append_assoc (or_empty (lookup t m)) (of_tenant t (r ∷ [])) (of_tenant t rs)
    ∙ ap (◌++◌ (or_empty (lookup t m))) (of_tenant-cons t r rs)

find-keep :
    (f g : RouteDefinition → Bool) (rs : List RouteDefinition)
    → find g (keep f rs) ≡ find (λ r. f r && g r) rs
find-keep f g [] = refl
find-keep f g (r ∷ rs) = ground (arith, find-keep f g rs)

-- Grouping by tenant changes no answer: the route matched is the first in the configured order
-- that belongs to the tenant, is enabled, lists the method and has a pattern that fits the path;
-- and none is matched exactly when no route is such.
pub match-route_matcher :
    (routes : List RouteDefinition) (tenant_id method path : String)
    → match (route_matcher routes) tenant_id method path
      ≡ find (λ r. str_eq r.tenant_id tenant_id && serves method path r) routes
unfolding match route_matcher lookup
match-route_matcher routes t method path =
    ap (find (serves method path)) (lookup-add_routes t [] routes)
    ∙ find-keep (λ r. str_eq r.tenant_id t) (serves method path) routes

find-holds :
    (test : RouteDefinition → Bool) (rs : List RouteDefinition) (r : RouteDefinition)
    → find test rs ≡ some r
    → test r ≡ true
find-holds test [] r e = cc
find-holds test (x ∷ rs) r e = ground (arith, find-holds test rs r)

serves_parts :
    (method path : String) (r : RouteDefinition)
    → serves method path r ≡ true
    → (r.enabled ≡ true)
      × (any (str_eq (upper method)) (map upper r.http_methods) ≡ true)
      × (fnmatch path r.path_pattern ≡ true)
unfolding serves
serves_parts method path r h = ground arith

-- A matched route belongs to the tenant that asked, is enabled, lists the method in either case,
-- and its pattern fits the path.
pub match-serves :
    (routes : List RouteDefinition) (tenant_id method path : String) (r : RouteDefinition)
    → match (route_matcher routes) tenant_id method path ≡ some r
    → (r.tenant_id ≡ tenant_id)
      × (r.enabled ≡ true)
      × (any (str_eq (upper method)) (map upper r.http_methods) ≡ true)
      × (fnmatch path r.path_pattern ≡ true)
match-serves routes t method path r e =
    let held : (str_eq r.tenant_id t && serves method path r) ≡ true =
      find-holds (λ x. str_eq x.tenant_id t && serves method path x) routes r
        (sym (match-route_matcher routes t method path) ∙ e) in
    let (named, served) = &&-split _ _ held in
    let (enabled, listed, fits) = serves_parts method path r served in
    ((str_eq_iff r.tenant_id t).0 named, enabled, listed, fits)
