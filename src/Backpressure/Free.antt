-- ===== src/Backpressure/Free.antt =====
-- With a free slot in each of its gates a request passes them all.
use sentinel_distributed_api.Prelude.{
  ◌+◌, ◌-◌, ◌<◌, ◌≡◌, refl, ap, ◌∙◌, String, Bool, true, false, some, List, [], ◌∷◌, arith, All,
  lookup, if◌then◌else◌, Bool-cases, ◌==◌, inl, inr,
}
use sentinel_distributed_api.Backpressure.{
  Gate, ConcurrencyLimits, ConcurrencyManager, Address, gate_at, put_gate, create, create_all,
  enter, enter_now, try_enter, enter_all, acquire_all, acquired, path, new_manager,
}
use sentinel_distributed_api.Backpressure.Gates.{same_address, same_address_sound, gate_at-put_gate}

-- No two gates of a list are the same.
abbrev pub Apart : List Address → Type 0
Apart [] = Unit
Apart (a ∷ rest) = All (λ (b : Address). same_address a b ≡ false) rest × Apart rest

abbrev pub Free : ConcurrencyManager → List Address → Type 0
Free m = All λ (a : Address). 0 < (gate_at m a).free

enters : (g : Gate) → 0 < g.free → (g' : Gate) × (enter g ≡ some g')
unfolding enter
enters g h = elim (Bool-cases (g.free == 0)) [
  | inl e ↦ absurd (ground (arith, h, e))
  | inr e ↦ (record g { free = g.free - 1; in_flight = g.in_flight + 1 }, rw e refl)
]

module _ (waited : Address → ConcurrencyManager → Bool × ConcurrencyManager) where
  try_enter_free :
      (a : Address) (m : ConcurrencyManager)
      → 0 < (gate_at m a).free
      → (g : Gate) × (try_enter waited a m ≡ (true, put_gate a g m))
  unfolding try_enter enter_now
  try_enter_free a m h =
      let (g, e) = enters (gate_at m a) h in (g, rw (e, enter_now, try_enter) refl)

  put-Free :
      (a : Address) (g : Gate) (m : ConcurrencyManager) (rest : List Address)
      → All (λ (b : Address). same_address a b ≡ false) rest
      → Free m rest
      → Free (put_gate a g m) rest
  put-Free a g m [] h f = _
  put-Free a g m (b ∷ rest) h f =
      (rw (gate_at-put_gate a b g m, h.0) f.0, put-Free a g m rest h.1 f.1)

  enter_all-Free :
      (held gates : List Address) (m : ConcurrencyManager)
      → Apart gates
      → Free m gates
      → (enter_all waited held gates m).0 ≡ acquired
  unfolding enter_all
  enter_all-Free held [] m h f = refl
  enter_all-Free held (a ∷ rest) m h f =
      let (g, e) = try_enter_free a m f.0 in
      rw e (enter_all-Free (a ∷ held) rest (put_gate a g m) h.1 (put-Free a g m rest h.0 f.1))

  gate_at-create : (b a : Address) (m : ConcurrencyManager) → gate_at (create b m) a ≡ gate_at m a
  unfolding create
  gate_at-create b a m = gate_at-put_gate b a (gate_at m b) m ∙ own (same_address b a) refl
    where
      own :
          (same : Bool)
          → same_address b a ≡ same
          → (if same then gate_at m b else gate_at m a) ≡ gate_at m a
      own true e = ap (gate_at m) (same_address_sound b a e)
      own false e = refl

  gate_at-create_all :
      (gates : List Address) (a : Address) (m : ConcurrencyManager)
      → gate_at (create_all gates m) a ≡ gate_at m a
  unfolding create_all
  gate_at-create_all [] a m = refl
  gate_at-create_all (b ∷ gates) a m =
      gate_at-create_all gates a (create b m) ∙ gate_at-create b a m

  created-Free :
      (made gates : List Address) (m : ConcurrencyManager)
      → Free m gates
      → Free (create_all made m) gates
  created-Free made [] m f = _
  created-Free made (a ∷ gates) m f =
      (rw (gate_at-create_all made a m) f.0, created-Free made gates m f.1)

  pub acquire_all-Free :
      (gates : List Address) (m : ConcurrencyManager)
      → Apart gates
      → Free m gates
      → (acquire_all waited gates m).0 ≡ acquired
  unfolding acquire_all
  acquire_all-Free gates m h f =
      enter_all-Free [] gates (create_all gates m) h (created-Free gates gates m f)

pub path-Apart :
    (tenant_id route_id backend_id : String) → Apart (path tenant_id route_id backend_id)
unfolding path same_address
path-Apart tenant_id route_id backend_id =
    ((refl, (refl, (refl, _))), ((refl, (refl, _)), ((refl, _), (_, _))))

-- Every gate of a manager whose limits are above 0 is free at the start.
pub new_manager-Free :
    (limits : ConcurrencyLimits) (tenant_id route_id backend_id : String)
    → 0 < limits.max_global
    → 0 < limits.max_per_tenant
    → 0 < limits.max_per_route
    → 0 < limits.max_per_backend
    → Free (new_manager limits) (path tenant_id route_id backend_id)
unfolding path new_manager gate_at lookup
new_manager-Free limits tenant_id route_id backend_id g t r b = (g, (t, (r, (b, _))))
