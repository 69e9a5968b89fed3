-- ===== src/Dispatch/Outage/Calls.antt =====
-- Requests one after another to a service that is down.
use sentinel_distributed_api.Prelude.{
  ℕ, ◌+◌, ◌≤◌, ◌<◌, ◌≡◌, inl, subst, sym, String, List, [], ◌∷◌, ◌++◌, All, arith, length,
  length-append,
}
use sentinel_distributed_api.Retry.{RetryPolicy}
use sentinel_distributed_api.Router.{RouteDefinition}
use sentinel_distributed_api.Breaker.Failing.{Failing}
use sentinel_distributed_api.Breaker.Down.{Down}
use sentinel_distributed_api.Gateway.{World, Gateway, Attempt, Wait, Moment, breaker_for}
use sentinel_distributed_api.Dispatch.{dispatch}
use sentinel_distributed_api.Dispatch.Outage.{Fails, dispatch-Paid}

-- A request that is dispatched, and what happens around it.
pub record Dispatched : Type 0 where
  pub world : World
  pub request_id : String
  pub method : String
  pub route : RouteDefinition
  pub policy : RetryPolicy

-- The calls that requests make, one after another, and the state after them.
unfoldable pub dispatch_each : List Dispatched → Gateway → List Attempt × Gateway
dispatch_each [] g = ([], g)
dispatch_each (r ∷ rs) g =
    let (o, g', sent) = dispatch r.world r.request_id r.method r.route r.policy g in
    let (later, g'') = dispatch_each rs g' in (sent ++ later, g'')

module _ (lo until : ℕ) (service : String) where
  -- The request is to the service, reads its clock from `lo` on and before `until`, each of its
  -- calls fails, and what others do to the circuit while it waits brings it no further from opening.
  pub record Struck (r : Dispatched) : Type 0 where
    pub to_service : r.route.backend_service_id ≡ service
    pub readings : (n : ℕ) (m : Moment) → (lo ≤ r.world.time n m) × (r.world.time n m < until)
    pub failing : (n : ℕ) → Fails (r.world.reply n)
    pub others_fail :
        (k n : ℕ) (w : Wait) (g : Gateway)
        → Down until k (breaker_for r.route.backend_service_id g)
        → Down until k (breaker_for r.route.backend_service_id (r.world.others n w g))

  dispatch_each-Down :
      (k : ℕ) (rs : List Dispatched) (g : Gateway)
      → until ≤ lo + 10_000_000
      → All Struck rs
      → Down until k (breaker_for service g)
      → length (dispatch_each rs g).0 ≤ k
  unfolding dispatch_each
  dispatch_each-Down k [] g within struck h = omega arith
  dispatch_each-Down k (r ∷ rs) g within (s, struck) h =
      let at : String → Gateway → ℕ → Type 0 = λ id g' j. Down until j (breaker_for id g') in
      let (rest, few, h') =
        dispatch-Paid lo until within r.world r.request_id r.method r.route r.policy s.readings
          s.failing s.others_fail k g (subst (λ id. at id g k) (sym s.to_service) h) in
      let (o, g', sent) = dispatch r.world r.request_id r.method r.route r.policy g in
      omega (
        arith,
        few,
        length-append sent (dispatch_each rs g').0,
        dispatch_each-Down rest rs g' within struck (subst (λ id. at id g' rest) s.to_service h'),
      )

  -- The backends of a service that are down are called at most 20 times in any 10 seconds, by
  -- however many requests that come one after another, with however many attempts each: if they all
  -- read the clock in that time, the circuit of the service is closed with nothing in its window at
  -- first, every call is refused, times out, or is answered with a status from 500 to 599, and what
  -- others do to the circuit meanwhile keeps it closed with failures only and no fewer of them, or
  -- open to the end of the time.
  pub dispatch_each-le :
      (rs : List Dispatched) (g : Gateway)
      → until ≤ lo + 10_000_000
      → All Struck rs
      → Failing 0 (breaker_for service g)
      → length (dispatch_each rs g).0 ≤ 20
  dispatch_each-le rs g within struck f =
      dispatch_each-Down 20 rs g within struck (inl (0, omega arith, omega arith, f))
