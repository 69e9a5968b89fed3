-- ===== src/Backpressure/System.antt =====
-- Any number of requests that pass the gates at the same time, their steps interleaved in any order.
use sentinel_distributed_api.Prelude.{
  ℕ, String, ◌+◌, ◌≡◌, refl, some, List, [], ◌∷◌, ◌++◌, arith, count,
}
use sentinel_distributed_api.Backpressure.{
  Gate, ConcurrencyLimits, ConcurrencyManager, Address, gate_at, put_gate, enter, leave_all, path,
  create_all, new_manager,
}
use sentinel_distributed_api.Backpressure.Gates.{same_address}

-- A request: the gates it is in, the innermost first, and those it still has to pass.
pub record Task : Type 0 where
  pub held : List Address
  pub waiting : List Address

-- One step of one request: it gets a slot of the gate it waits at, or it ends (it is done, timed
-- out or cancelled) and leaves the gates it is in.
pub data Move (m : ConcurrencyManager) (t : Task) (m' : ConcurrencyManager) (t' : Task)
    : Type 0 where
  grant :
      (a : Address) (rest : List Address) (g : Gate)
      → t.waiting ≡ a ∷ rest
      → enter (gate_at m a) ≡ some g
      → m' ≡ put_gate a g m
      → t' ≡ record { held = a ∷ t.held; waiting = rest }
      → Move m t m' t'
  end : m' ≡ leave_all t.held m → t' ≡ record { held = []; waiting = [] } → Move m t m' t'

pub record System : Type 0 where
  pub manager : ConcurrencyManager
  pub tasks : List Task

pub data Step (s s' : System) : Type 0 where
  arrive :
      (tenant_id route_id backend_id : String)
      → s'.manager ≡ create_all (path tenant_id route_id backend_id) s.manager
      → s'.tasks ≡ record { held = []; waiting = path tenant_id route_id backend_id } ∷ s.tasks
      → Step s s'
  act :
      (before after : List Task) (t t' : Task)
      → s.tasks ≡ before ++ t ∷ after
      → Move s.manager t s'.manager t'
      → s'.tasks ≡ before ++ t' ∷ after
      → Step s s'

pub data Reach (limits : ConcurrencyLimits) : System → Type 0 where
  start : {s : System} → s.manager ≡ new_manager limits → s.tasks ≡ [] → Reach limits s
  later : {s s' : System} → Reach limits s → Step s s' → Reach limits s'

-- How often a request that is in the gates `held` is in the gate at `a`.
abbrev pub count_at : Address → List Address → ℕ
count_at a = count λ b. same_address b a

-- How often the requests are in the gate at `a`.
unfoldable pub inside : Address → List Task → ℕ
inside a [] = 0
inside a (t ∷ ts) = count_at a t.held + inside a ts

pub inside-middle :
    (a : Address) (before after : List Task) (t : Task)
    → inside a (before ++ t ∷ after) ≡ count_at a t.held + inside a (before ++ after)
unfolding inside
inside-middle a [] after t = refl
inside-middle a (u ∷ before) after t = omega (arith, inside-middle a before after t)
