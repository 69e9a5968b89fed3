-- ===== src/Backpressure/Slots.antt =====
-- The slots of every gate are accounted for in every reachable state.
use sentinel_distributed_api.Prelude.{
  ℕ, suc, ◌+◌, ◌≤◌, ◌≡◌, ◌↔◌, refl, sym, ap, ◌∙◌, subst, Bool, true, false, none, some, List, [],
  ◌∷◌, ◌++◌, arith, if◌then◌else◌, lookup,
}
use sentinel_distributed_api.Backpressure.{
  Gate, ConcurrencyLimits, ConcurrencyManager, Address, global, tenant, route, backend, gate_at,
  put_gate, create, enter, leave, leave_at, leave_all, path, create_all, new_manager,
}
use sentinel_distributed_api.Backpressure.Gates.{
  same_address, same_address_refl, same_address_sound, gate_at-put_gate,
}
use sentinel_distributed_api.Backpressure.System.{
  Task, Move, grant, end, System, Step, arrive, act, Reach, start, later, count_at, inside,
  inside-middle,
}

-- A gate that `k` requests are in.
pub record Counts (k : ℕ) (g : Gate) : Type 0 where
  pub counted : g.in_flight ≡ k
  pub balanced : g.free + g.in_flight ≡ g.limit

abbrev pub Inv : ConcurrencyManager → (Address → ℕ) → Type 0
Inv m k = (a : Address) → Counts (k a) (gate_at m a)

module _ (b : Address) (g : Gate) (m : ConcurrencyManager) (k k' : Address → ℕ) where
  put-Inv :
      Inv m k
      → Counts (k' b) g
      → ((a : Address) → same_address b a ≡ false → k' a ≡ k a)
      → Inv (put_gate b g m) k'
  put-Inv h own other a = rw (gate_at-put_gate b a g m) (choose (same_address b a) refl)
    where
      choose :
          (same : Bool) → same_address b a ≡ same → Counts (k' a) (if same then g else gate_at m a)
      choose true e = subst (λ c. Counts (k' c) g) (same_address_sound b a e) own
      choose false e = subst (λ n. Counts n (gate_at m a)) (sym (other a e)) (h a)

leave-Counts : (k : ℕ) (g : Gate) → Counts (suc k) g → Counts k (leave g)
unfolding leave
leave-Counts k g c = ground arith

enter-Counts : (k : ℕ) (g g' : Gate) → enter g ≡ some g' → Counts k g → Counts (suc k) g'
unfolding enter
enter-Counts k g g' e c = ground arith

count_at_self : (b : Address) (held : List Address) → count_at b (b ∷ held) ≡ suc (count_at b held)
count_at_self b held = rw (same_address_refl b)

count_at_other :
    (a b : Address) (held : List Address)
    → same_address b a ≡ false
    → count_at a (b ∷ held) ≡ count_at a held
count_at_other a b held e = rw e

Inv-eq :
    (m : ConcurrencyManager) {k k' : Address → ℕ}
    → Inv m k
    → ((a : Address) → k a ≡ k' a)
    → Inv m k'
Inv-eq m h e a = subst (λ n. Counts n (gate_at m a)) (e a) (h a)

-- Leaving gates takes the request out of each of them.
leave_all-Inv :
    (held : List Address) (m : ConcurrencyManager) (k : Address → ℕ)
    → Inv m (λ a. count_at a held + k a)
    → Inv (leave_all held m) k
unfolding leave_all
leave_all-Inv [] m k h = Inv-eq m h (λ a. omega arith)
leave_all-Inv (b ∷ held) m k h = leave_all-Inv held (leave_at b m) k (
    put-Inv b (leave (gate_at m b)) m _ (λ a. count_at a held + k a) h
      (leave-Counts (count_at b held + k b) (gate_at m b)
        (subst (λ n. Counts n (gate_at m b)) (omega (arith, count_at_self b held)) (h b)))
      (λ a e. omega (arith, count_at_other a b held e)))

create_all-Inv :
    (gates : List Address) (m : ConcurrencyManager) (k : Address → ℕ)
    → Inv m k
    → Inv (create_all gates m) k
unfolding create_all
create_all-Inv [] m k h = h
create_all-Inv (b ∷ gates) m k h =
    create_all-Inv gates (create b m) k (put-Inv b (gate_at m b) m k k h (h b) (λ a e. refl))

Move-Inv :
    {m m' : ConcurrencyManager} {t t' : Task} (k : Address → ℕ)
    → Move m t m' t'
    → Inv m (λ a. count_at a t.held + k a)
    → Inv m' (λ a. count_at a t'.held + k a)
Move-Inv {m} {m'} {t} {t'} k (grant b rest g w e em et) h =
    rw (em, et)
      (put-Inv b g m _ (λ a. count_at a (b ∷ t.held) + k a) h
        (subst (λ n. Counts n g) (omega (arith, count_at_self b t.held))
          (enter-Counts _ (gate_at m b) g e (h b)))
        (λ a ne. omega (arith, count_at_other a b t.held ne)))
Move-Inv {m} {m'} {t} {t'} k (end em et) h =
    rw (em, et) (Inv-eq (leave_all t.held m) (leave_all-Inv t.held m k h) (λ a. omega arith))

Step-Inv :
    {s s' : System}
    → Step s s'
    → Inv s.manager (λ a. inside a s.tasks)
    → Inv s'.manager (λ a. inside a s'.tasks)
unfolding inside
Step-Inv {s} {s'} (arrive tenant_id route_id backend_id em et) h =
    let gates = path tenant_id route_id backend_id in
    rw (em, et)
      (Inv-eq (create_all gates s.manager) (create_all-Inv gates s.manager _ h) (λ a. omega arith))
Step-Inv {s} {s'} (act before after t t' et mv et') h = rw et' (
    Inv-eq s'.manager
      (Move-Inv (λ a. inside a (before ++ after)) mv
        (Inv-eq s.manager h λ a. ap (inside a) et ∙ inside-middle a before after t))
      (λ a. sym (inside-middle a before after t')))

new_manager-Inv : (limits : ConcurrencyLimits) → Inv (new_manager limits) (λ a. 0)
unfolding new_manager gate_at lookup
new_manager-Inv limits global = ground arith
new_manager-Inv limits (tenant k) = ground arith
new_manager-Inv limits (route k) = ground arith
new_manager-Inv limits (backend k) = ground arith

pub Reach-Inv :
    {limits : ConcurrencyLimits} {s : System}
    → Reach limits s
    → Inv s.manager (λ a. inside a s.tasks)
unfolding inside
Reach-Inv {limits} {s} (start em et) = rw (em, et) (new_manager-Inv limits)
Reach-Inv (later r st) = Step-Inv st (Reach-Inv r)

-- However the steps of the requests interleave, a gate counts exactly the requests that are in it,
-- and they are never more than its limit.
pub in_flight_bounded :
    (limits : ConcurrencyLimits) (s : System) (a : Address)
    → Reach limits s
    → ((gate_at s.manager a).in_flight ≡ inside a s.tasks)
      × (inside a s.tasks ≤ (gate_at s.manager a).limit)
in_flight_bounded limits s a r = let c = Reach-Inv r a in omega (arith, c.counted, c.balanced)

-- No slot is lost: a gate turns a request away exactly while as many requests as its limit are in
-- it, so with nobody in a gate of limit above 0 it lets the next request through.
pub enter_blocked_iff :
    (limits : ConcurrencyLimits) (s : System) (a : Address)
    → Reach limits s
    → (enter (gate_at s.manager a) ≡ none) ↔ (inside a s.tasks ≡ (gate_at s.manager a).limit)
unfolding enter
enter_blocked_iff limits s a r = let c = Reach-Inv r a in ground (arith, c.counted, c.balanced)
