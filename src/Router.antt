-- ===== src/Router.antt =====
-- apps/gateway/routing/router.py. A `BackendInstance` is a value: the cycle of the selector keeps
-- the copies of its last rebuild, and of a chosen copy the gateway reads only `id`, `host`, `port`
-- and `weight`, which nothing reassigns. `random.shuffle` is a parameter. A weight below 1 counts
-- as 1, so that weights are natural numbers.
pub mod Matching
pub mod RoundRobin
pub mod Fairness
pub mod Targets
pub mod Examples
use sentinel_distributed_api.Glob.{fnmatch}
use sentinel_distributed_api.Prelude.{
  ℕ, zero, suc, String, Bool, true, false, not, ◌&&◌, Option, none, some, List, [], ◌∷◌, ◌++◌, map,
  max, ◌==◌, if◌then◌else◌, keep, find, any, replicate, Dict, lookup, insert, str_eq, upper,
}

pub data InstanceStatus : Type 0 where
  healthy unhealthy draining unknown : InstanceStatus

pub record BackendInstance : Type 0 where
  pub id : String
  pub host : String
  pub port : ℕ
  pub weight : ℕ
  pub status : InstanceStatus
  pub failure_count : ℕ

abbrev pub is_healthy : InstanceStatus → Bool
is_healthy healthy = true
is_healthy _ = false

abbrev pub is_routable : BackendInstance → Bool
is_routable i = is_healthy i.status

pub record RouteDefinition : Type 0 where
  pub id : String
  pub tenant_id : String
  pub name : String
  pub path_pattern : String
  pub http_methods : List String
  pub backend_service_id : String
  pub timeout_ms : ℕ
  pub priority : String
  pub enabled : Bool

-- `_by_tenant`.
abbrev pub RouteMatcher : Type 0
RouteMatcher = Dict (List RouteDefinition)

abbrev pub or_empty {ℓ} : {A : Type ℓ} → Option (List A) → List A
or_empty none = []
or_empty (some xs) = xs

-- `self._by_tenant.setdefault(r.tenant_id, []).append(r)`.
add_route : RouteMatcher → RouteDefinition → RouteMatcher
add_route m r = insert r.tenant_id (or_empty (lookup r.tenant_id m) ++ r ∷ []) m

add_routes : RouteMatcher → List RouteDefinition → RouteMatcher
unfolding add_route
add_routes m [] = m
add_routes m (r ∷ rs) = add_routes (add_route m r) rs

-- `RouteMatcher(routes)`.
unfoldable pub route_matcher : List RouteDefinition → RouteMatcher
unfolding add_routes
route_matcher routes = add_routes [] routes

-- The loop body of `match`: the tests that a route must pass.
unfoldable pub serves : String → String → RouteDefinition → Bool
serves method path route =
    if not route.enabled
    then false
    else if not (any (str_eq (upper method)) (map upper route.http_methods))
    then false
    else fnmatch path route.path_pattern

-- `none` is `RouteNotFoundError`.
unfoldable pub match : RouteMatcher → String → String → String → Option RouteDefinition
unfolding serves
match m tenant_id method path = find (serves method path) (or_empty (lookup tenant_id m))

abbrev pub Signature : Type 0
Signature = List (String × ℕ)

abbrev pub key : BackendInstance → String × ℕ
key i = (i.id, i.weight)

abbrev pub routable : List BackendInstance → List BackendInstance
routable = keep is_routable

-- Equality of two signatures, which are tuples of pairs.
unfoldable pub sig_eq : Signature → Signature → Bool
sig_eq [] [] = true
sig_eq [] ((j, w) ∷ t) = false
sig_eq ((i, v) ∷ s) [] = false
sig_eq ((i, v) ∷ s) ((j, w) ∷ t) = str_eq i j && v == w && sig_eq s t

unfoldable pub is_last_seen : Option Signature → Signature → Bool
unfolding sig_eq
is_last_seen none signature = false
is_last_seen (some last) signature = sig_eq last signature

-- Each instance as often as its weight says, at least once.
unfoldable pub expand : List BackendInstance → List BackendInstance
expand [] = []
expand (i ∷ is) = replicate (max 1 i.weight) i ++ expand is

-- An `itertools.cycle`, as the items of its next round in order.
pub record Selector : Type 0 where
  pub cycles : Dict (List BackendInstance)
  pub last_seen_signature : Dict Signature

unfoldable pub fresh_selector : Selector
fresh_selector = record { cycles = []; last_seen_signature = [] }

pub data Selection : Type 0 where
  chosen : BackendInstance → Selection
  no_healthy_backend_error : Selection
  -- `KeyError`, or `StopIteration` from an empty cycle.
  internal_error : Selection

-- `next(cycle)`: the item given out comes back at the end of the round.
next_in : String → Selector → Option (List BackendInstance) → Selection × Selector
next_in service_id s none = (internal_error, s)
next_in service_id s (some []) = (internal_error, s)
next_in service_id s (some (i ∷ is)) =
    (chosen i, record s { cycles = insert service_id (is ++ i ∷ []) s.cycles })

module _ (shuffle : List BackendInstance → List BackendInstance) where
  unfoldable pub rebuild : String → List BackendInstance → Selector → Selector
  unfolding expand is_last_seen
  rebuild service_id instances s =
      if is_last_seen (lookup service_id s.last_seen_signature) (map key instances)
      then s
      else record s {
        cycles = insert service_id (shuffle (expand instances)) s.cycles;
        last_seen_signature = insert service_id (map key instances) s.last_seen_signature;
      }

  unfoldable pub select_from : String → List BackendInstance → Selector → Selection × Selector
  unfolding rebuild next_in
  select_from service_id [] s = (no_healthy_backend_error, s)
  select_from service_id (i ∷ is) s =
      let s' = rebuild service_id (i ∷ is) s in next_in service_id s' (lookup service_id s'.cycles)

  unfoldable pub select : String → List BackendInstance → Selector → Selection × Selector
  unfolding select_from
  select service_id instances s = select_from service_id (routable instances) s
