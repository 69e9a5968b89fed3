-- ===== src/Backpressure/Configured.antt =====
-- The limits of the gates are the configured ones, in every reachable state.
use sentinel_distributed_api.Prelude.{
  ℕ, ◌≤◌, ◌≡◌, ◌↔◌, refl, ap, ◌∙◌, subst, Bool, true, false, none, some, List, [], ◌∷◌, arith,
  if◌then◌else◌, lookup,
}
use sentinel_distributed_api.Backpressure.{
  Gate, ConcurrencyLimits, ConcurrencyManager, Address, global, tenant, route, backend, gate_at,
  put_gate, create, enter, leave, leave_at, leave_all, path, create_all, new_manager,
}
use sentinel_distributed_api.Backpressure.Gates.{same_address, same_address_sound, gate_at-put_gate}
use sentinel_distributed_api.Backpressure.System.{
  Task, Move, grant, end, System, Step, arrive, act, Reach, start, later, inside,
}
use sentinel_distributed_api.Backpressure.Slots.{in_flight_bounded, enter_blocked_iff}

-- The limit that the configuration gives the gate at an address.
abbrev pub limit_of : ConcurrencyLimits → Address → ℕ
limit_of limits global = limits.max_global
limit_of limits (tenant k) = limits.max_per_tenant
limit_of limits (route k) = limits.max_per_route
limit_of limits (backend k) = limits.max_per_backend

module _ (limits : ConcurrencyLimits) where
  abbrev pub Configured : ConcurrencyManager → Type 0
  Configured m = (a : Address) → (gate_at m a).limit ≡ limit_of limits a

  put-Configured :
      (b : Address) (g : Gate) (m : ConcurrencyManager)
      → Configured m
      → g.limit ≡ limit_of limits b
      → Configured (put_gate b g m)
  put-Configured b g m h own a = rw (gate_at-put_gate b a g m) (choose (same_address b a) refl)
    where
      choose :
          (same : Bool)
          → same_address b a ≡ same
          → (if same then g else gate_at m a).limit ≡ limit_of limits a
      choose true e = own ∙ ap (limit_of limits) (same_address_sound b a e)
      choose false e = h a

  enter_limit : (g g' : Gate) → enter g ≡ some g' → g'.limit ≡ g.limit
  unfolding enter
  enter_limit g g' e = ground arith

  leave_all-Configured :
      (held : List Address) (m : ConcurrencyManager) → Configured m → Configured (leave_all held m)
  unfolding leave_all
  leave_all-Configured [] m h = h
  leave_all-Configured (b ∷ held) m h =
      leave_all-Configured held (leave_at b m)
        (put-Configured b (leave (gate_at m b)) m h (unfold leave in h b))

  create_all-Configured :
      (gates : List Address) (m : ConcurrencyManager)
      → Configured m
      → Configured (create_all gates m)
  unfolding create_all
  create_all-Configured [] m h = h
  create_all-Configured (b ∷ gates) m h =
      create_all-Configured gates (create b m) (put-Configured b (gate_at m b) m h (h b))

  Move-Configured :
      {m m' : ConcurrencyManager} {t t' : Task} → Move m t m' t' → Configured m → Configured m'
  Move-Configured {m} {m'} {t} {t'} (grant b rest g w e em et) h =
      rw em (put-Configured b g m h (enter_limit (gate_at m b) g e ∙ h b))
  Move-Configured {m} {m'} {t} {t'} (end em et) h = rw em (leave_all-Configured t.held m h)

  new_manager-Configured : Configured (new_manager limits)
  unfolding new_manager gate_at lookup
  new_manager-Configured global = refl
  new_manager-Configured (tenant k) = refl
  new_manager-Configured (route k) = refl
  new_manager-Configured (backend k) = refl

  Step-Configured : {s s' : System} → Step s s' → Configured s.manager → Configured s'.manager
  Step-Configured {s} (arrive tenant_id route_id backend_id em et) h =
      rw em (create_all-Configured (path tenant_id route_id backend_id) s.manager h)
  Step-Configured (act before after t t' et mv et') h = Move-Configured mv h

  Reach-Configured : {s : System} → Reach limits s → Configured s.manager
  Reach-Configured (start em et) = rw em new_manager-Configured
  Reach-Configured (later r st) = Step-Configured st (Reach-Configured r)

  -- However requests interleave, a gate counts exactly the requests that are in it; they are never
  -- more than the settings say for the global gate, a tenant, a route or a backend; and a gate turns a
  -- request away exactly while as many as that are in it.
  pub inside_configured :
      (s : System) (a : Address)
      → Reach limits s
      → ((gate_at s.manager a).in_flight ≡ inside a s.tasks)
        × (inside a s.tasks ≤ limit_of limits a)
        × ((enter (gate_at s.manager a) ≡ none) ↔ (inside a s.tasks ≡ limit_of limits a))
  inside_configured s a r =
      let same = Reach-Configured r a in
      let (counted, bounded) = in_flight_bounded limits s a r in
      (
        counted,
        omega (arith, bounded, same),
        subst (λ n. (enter (gate_at s.manager a) ≡ none) ↔ (inside a s.tasks ≡ n)) same
            (enter_blocked_iff limits s a r),
      )
