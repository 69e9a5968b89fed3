-- ===== src/Backpressure/Examples.antt =====
-- Gates at concrete limits, and the theorems applied.
use mathlib.Core.List.{Memᴰ}
use sentinel_distributed_api.Prelude.{
  true, false, List, arith, ◌≤◌, ◌≡◌, ◌↔◌, lookup, insert, str_eq, refl, none, [], ◌∷◌,
}
use sentinel_distributed_api.Backpressure.{
  ConcurrencyLimits, default_limits, ConcurrencyManager, new_manager, Address, global, tenant,
  route, backend, path, gate_at, put_gate, enter, create_all, acquired, cancelled_error,
  backpressure_rejected, acquire_all, LoadShedder,
}
use sentinel_distributed_api.Backpressure.System.{
  grant, System, arrive, act, Step, Reach, start, later, inside,
}
use sentinel_distributed_api.Backpressure.Configured.{inside_configured}
use sentinel_distributed_api.Backpressure.Deadlock.{Progress, no_deadlock}

-- One slot per tenant.
abbrev narrow : ConcurrencyLimits
narrow = record default_limits { max_per_tenant = 1 }

abbrev idle : ConcurrencyManager
unfolding new_manager
idle = new_manager narrow

one_passes : (acquire_all (λ a m. (false, m)) (path "acme" "r" "b") idle).0 ≡ acquired
unfolding idle acquire_all path lookup insert str_eq
one_passes = refl

second_is_rejected :
    (acquire_all
      (λ a m. (false, m))
      (path "acme" "r" "b")
      (acquire_all (λ a m. (false, m)) (path "acme" "r" "b") idle).1).0
    ≡ backpressure_rejected "tenant:acme"
unfolding idle acquire_all path lookup insert str_eq
second_is_rejected = refl

-- A wait at the tenant's gate that is cancelled gives back the slot of the global gate.
cancelled_wait :
    (acquire_all
      (λ a m. (true, m))
      (path "acme" "r" "b")
      (acquire_all (λ a m. (false, m)) (path "acme" "r" "b") idle).1)
    ≡ (cancelled_error, (acquire_all (λ a m. (false, m)) (path "acme" "r" "b") idle).1)
unfolding idle acquire_all path lookup insert str_eq
cancelled_wait = refl

another_tenant_passes :
    (acquire_all
      (λ a m. (false, m))
      (path "zeta" "r" "b")
      (acquire_all (λ a m. (false, m)) (path "acme" "r" "b") idle).1).0
    ≡ acquired
unfolding idle acquire_all path lookup insert str_eq
another_tenant_passes = refl

-- One slot in all.
abbrev single : ConcurrencyLimits
single = record default_limits { max_global = 1 }

abbrev acme : List Address
unfolding path
acme = path "acme" "r" "b"

-- Two requests have arrived, and then the first of them has got the slot.
abbrev arrived : System
unfolding create_all acme new_manager
arrived = record {
  manager = create_all acme (create_all acme (new_manager single));
  tasks = record { held = []; waiting = acme } ∷ record { held = []; waiting = acme } ∷ [];
}

abbrev entered : System
unfolding arrived put_gate gate_at
entered = record {
  manager =
      put_gate global (record (gate_at arrived.manager global) { free = 0; in_flight = 1 })
        arrived.manager;
  tasks =
      record { held = []; waiting = acme }
      ∷ record {
        held = global ∷ [];
        waiting = tenant "tenant:acme" ∷ route "route:r" ∷ backend "backend:b" ∷ [];
      }
      ∷ [];
}

abbrev arrived_once : System
unfolding create_all acme new_manager
arrived_once = record {
  manager = create_all acme (new_manager single);
  tasks = record { held = []; waiting = acme } ∷ [];
}

abbrev empty : System
unfolding new_manager
empty = record { manager = new_manager single; tasks = [] }

arrives : Step empty arrived_once
unfolding empty arrived_once acme
arrives = arrive "acme" "r" "b" refl refl

arrives_again : Step arrived_once arrived
unfolding arrived arrived_once acme
arrives_again = arrive "acme" "r" "b" refl refl

enters : Step arrived entered
unfolding entered arrived enter gate_at create_all lookup insert str_eq acme path
enters =
    act (record { held = []; waiting = acme } ∷ []) [] _ _ refl
      (grant global (tenant "tenant:acme" ∷ route "route:r" ∷ backend "backend:b" ∷ []) _ refl refl
        refl refl)
      refl

Reach-entered : Reach single entered
unfolding empty
Reach-entered = later (later (later (start refl refl) arrives) arrives_again) enters

abbrev shedder : LoadShedder
shedder = record { high_watermark_low = 700; high_watermark_normal = 900 }

inside_configured_example :
    ((gate_at entered.manager global).in_flight ≡ inside global entered.tasks)
    × (inside global entered.tasks ≤ 1)
    × ((enter (gate_at entered.manager global) ≡ none) ↔ (inside global entered.tasks ≡ 1))
inside_configured_example = inside_configured single entered global Reach-entered

no_deadlock_example : Progress entered
unfolding entered acme path
no_deadlock_example =
    no_deadlock single entered (record { held = []; waiting = acme }) Reach-entered (omega arith)
      (omega arith) (omega arith) (omega arith) (Memᴰ.head refl) (λ e. absurd cc)
