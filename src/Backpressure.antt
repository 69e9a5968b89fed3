-- ===== src/Backpressure.antt =====
-- apps/gateway/backpressure/semaphores.py. A gate holds the count of its `asyncio.Semaphore`; a
-- request that finds no slot waits, and either gets one that is given back or times out. The order
-- in which waiting requests are served is left open.
pub mod Gates
pub mod System
pub mod Slots
pub mod Configured
pub mod Deadlock
pub mod Free
pub mod Nesting
pub mod Shedding
pub mod Examples
use Prim.Native.String.{◌++◌}
use sentinel_distributed_api.Prelude.{
  ℕ, zero, suc, ◌+◌, ◌-◌, String, Bool, true, false, ◌&&◌, Option, none, some, List, [], ◌∷◌, leb,
  ltb, ◌==◌, if◌then◌else◌, Dict, lookup, insert, str_eq,
}

-- `Priority`, an `IntEnum`.
pub data Priority : Type 0 where
  low normal high : Priority

pub record ConcurrencyLimits : Type 0 where
  pub max_global : ℕ
  pub max_per_tenant : ℕ
  pub max_per_route : ℕ
  pub max_per_backend : ℕ
  pub queue_timeout_ms : ℕ

abbrev pub default_limits : ConcurrencyLimits
default_limits = record {
  max_global = 1000;
  max_per_tenant = 100;
  max_per_route = 200;
  max_per_backend = 100;
  queue_timeout_ms = 500;
}

-- `BoundedConcurrencyGate`; `free` is the count of its semaphore.
pub record Gate : Type 0 where
  pub name : String
  pub limit : ℕ
  pub queue_timeout_ms : ℕ
  pub free : ℕ
  pub in_flight : ℕ

pub new_gate : String → ℕ → ℕ → Gate
new_gate name limit queue_timeout_ms = record {
  name = name;
  limit = limit;
  queue_timeout_ms = queue_timeout_ms;
  free = limit;
  in_flight = 0;
}

pub record ConcurrencyManager : Type 0 where
  pub limits : ConcurrencyLimits
  pub global_gate : Gate
  pub tenant_gates : Dict Gate
  pub route_gates : Dict Gate
  pub backend_gates : Dict Gate

-- `ConcurrencyManager(limits)`.
unfoldable pub new_manager : ConcurrencyLimits → ConcurrencyManager
unfolding new_gate
new_manager limits = record {
  limits = limits;
  global_gate = new_gate "global" limits.max_global limits.queue_timeout_ms;
  tenant_gates = [];
  route_gates = [];
  backend_gates = [];
}

-- A gate of the manager, by its registry and its key there.
pub data Address : Type 0 where
  global : Address
  tenant route backend : (key : String) → Address

abbrev or_new : Option Gate → Gate → Gate
or_new none g = g
or_new (some g) _ = g

-- The gate of `_get_or_create`; one that is not in its registry yet is new.
unfoldable pub gate_at : ConcurrencyManager → Address → Gate
unfolding new_gate
gate_at m global = m.global_gate
gate_at m (tenant k) =
    or_new (lookup k m.tenant_gates) (new_gate k m.limits.max_per_tenant m.limits.queue_timeout_ms)
gate_at m (route k) =
    or_new (lookup k m.route_gates) (new_gate k m.limits.max_per_route m.limits.queue_timeout_ms)
gate_at m (backend k) =
    or_new (lookup k m.backend_gates)
      (new_gate k m.limits.max_per_backend m.limits.queue_timeout_ms)

unfoldable pub put_gate : Address → Gate → ConcurrencyManager → ConcurrencyManager
put_gate global g m = record m { global_gate = g }
put_gate (tenant k) g m = record m { tenant_gates = insert k g m.tenant_gates }
put_gate (route k) g m = record m { route_gates = insert k g m.route_gates }
put_gate (backend k) g m = record m { backend_gates = insert k g m.backend_gates }

-- `_get_or_create`, for its effect on the registry.
unfoldable pub create : Address → ConcurrencyManager → ConcurrencyManager
unfolding gate_at put_gate
create a m = put_gate a (gate_at m a) m

-- `acquire` up to its `yield`, if the semaphore has a slot.
unfoldable pub enter : Gate → Option Gate
enter g =
    if g.free == 0 then none else some (record g { free = g.free - 1; in_flight = g.in_flight + 1 })

-- The `finally` of `acquire`.
unfoldable pub leave : Gate → Gate
leave g = record g { free = g.free + 1; in_flight = g.in_flight - 1 }

unfoldable pub leave_at : Address → ConcurrencyManager → ConcurrencyManager
unfolding leave gate_at put_gate
leave_at a m = put_gate a (leave (gate_at m a)) m

-- The gates that `acquire_all` passes, outermost first.
unfoldable pub path : String → String → String → List Address
path tenant_id route_id backend_id =
    global
    ∷ tenant ("tenant:" ++ tenant_id)
    ∷ route ("route:" ++ route_id)
    ∷ backend ("backend:" ++ backend_id)
    ∷ []

-- Leave gates, the innermost first. The list has the innermost first.
unfoldable pub leave_all : List Address → ConcurrencyManager → ConcurrencyManager
unfolding leave_at
leave_all [] m = m
leave_all (a ∷ rest) m = leave_all rest (leave_at a m)

-- The gates `held`, and after them those of the list, in the order in which they are left.
unfoldable pub inner_first : List Address → List Address → List Address
inner_first held [] = held
inner_first held (a ∷ rest) = inner_first (a ∷ held) rest

-- The exit of `acquire_all`, from all of its gates.
unfoldable pub release_all : List Address → ConcurrencyManager → ConcurrencyManager
unfolding inner_first leave_all
release_all gates m = leave_all (inner_first [] gates) m

unfoldable pub create_all : List Address → ConcurrencyManager → ConcurrencyManager
unfolding create
create_all [] m = m
create_all (a ∷ rest) m = create_all rest (create a m)

-- `BackpressureRejected` names the gate; `cancelled_error` is the cancellation of the request.
pub data Acquisition : Type 0 where
  acquired cancelled_error : Acquisition
  backpressure_rejected : (scope : String) → Acquisition

-- How a wait that did not end in a slot ended.
unfoldable pub refused : Bool → String → Acquisition
refused cancelled scope = if cancelled then cancelled_error else backpressure_rejected scope

-- The others may act while a request waits; `waited a m` is whether its wait at `a` is cancelled, and
-- the manager when that ends.
module _ (waited : Address → ConcurrencyManager → Bool × ConcurrencyManager) where
  pub enter_now : Address → ConcurrencyManager → Option ConcurrencyManager
  unfolding enter gate_at put_gate
  enter_now a m = elim (enter (gate_at m a)) [ none ↦ none | some g ↦ some (put_gate a g m) ]

  -- A wait that ends with no slot has timed out, if it was not cancelled.
  pub try_enter : Address → ConcurrencyManager → Bool × ConcurrencyManager
  unfolding enter_now
  try_enter a m = elim (enter_now a m) [
    | some m' ↦ (true, m')
    | none ↦
        let after = (waited a m).1 in
        let late : Bool × ConcurrencyManager = elim (enter_now a after) [
          | some m' ↦ (true, m')
          | none ↦ (false, after)
        ] in
        if (waited a m).0 then (false, after) else late
  ]

  -- The nested `async with` of `acquire_all`: a gate that rejects gives back those outside it.
  pub enter_all :
      List Address → List Address → ConcurrencyManager → Acquisition × ConcurrencyManager
  unfolding try_enter leave_all refused
  enter_all held [] m = (acquired, m)
  enter_all held (a ∷ rest) m =
      let (entered, m') = try_enter a m in
      let inner = enter_all (a ∷ held) rest m' in
      if entered then inner else (refused (waited a m).0 (gate_at m' a).name, leave_all held m')

  -- `acquire_all` up to its `yield`, along the gates of `path`.
  unfoldable pub acquire_all : List Address → ConcurrencyManager → Acquisition × ConcurrencyManager
  unfolding enter_all create_all
  acquire_all gates m = enter_all [] gates (create_all gates m)

pub record LoadShedder : Type 0 where
  pub high_watermark_low : ℕ
  pub high_watermark_normal : ℕ

unfoldable pub should_shed : LoadShedder → Priority → ℕ → Bool
should_shed s high current_in_flight = false
should_shed s low current_in_flight = leb s.high_watermark_low current_in_flight
should_shed s normal current_in_flight = leb s.high_watermark_normal current_in_flight
