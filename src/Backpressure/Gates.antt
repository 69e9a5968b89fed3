-- ===== src/Backpressure/Gates.antt =====
-- The gates as a family by address, and what one request does to them.
use sentinel_distributed_api.Prelude.{
  ◌+◌, ◌≡◌, refl, ap, Bool, true, false, some, arith, if◌then◌else◌, lookup-insert, str_eq,
  str_eq_iff, str_eq_refl,
}
use sentinel_distributed_api.Backpressure.{
  Gate, ConcurrencyManager, Address, global, tenant, route, backend, gate_at, put_gate, enter,
  leave,
}

unfoldable pub same_address : Address → Address → Bool
same_address global global = true
same_address (tenant j) (tenant k) = str_eq j k
same_address (route j) (route k) = str_eq j k
same_address (backend j) (backend k) = str_eq j k
same_address _ _ = false

pub same_address_refl : (a : Address) → same_address a a ≡ true
unfolding same_address
same_address_refl global = refl
same_address_refl (tenant k) = str_eq_refl k
same_address_refl (route k) = str_eq_refl k
same_address_refl (backend k) = str_eq_refl k

pub gate_at-put_gate :
    (a b : Address) (g : Gate) (m : ConcurrencyManager)
    → gate_at (put_gate a g m) b ≡ (if same_address a b then g else gate_at m b)
unfolding gate_at put_gate same_address
gate_at-put_gate global global g m = refl
gate_at-put_gate global (tenant k) g m = refl
gate_at-put_gate global (route k) g m = refl
gate_at-put_gate global (backend k) g m = refl
gate_at-put_gate (tenant j) global g m = refl
gate_at-put_gate (tenant j) (tenant k) g m = ground (arith, lookup-insert j k g m.tenant_gates)
gate_at-put_gate (tenant j) (route k) g m = refl
gate_at-put_gate (tenant j) (backend k) g m = refl
gate_at-put_gate (route j) global g m = refl
gate_at-put_gate (route j) (tenant k) g m = refl
gate_at-put_gate (route j) (route k) g m = ground (arith, lookup-insert j k g m.route_gates)
gate_at-put_gate (route j) (backend k) g m = refl
gate_at-put_gate (backend j) global g m = refl
gate_at-put_gate (backend j) (tenant k) g m = refl
gate_at-put_gate (backend j) (route k) g m = refl
gate_at-put_gate (backend j) (backend k) g m = ground (arith, lookup-insert j k g m.backend_gates)

-- Slots are neither lost nor made up: those that are free and those in flight add up to the limit.
abbrev pub IsBalanced : Gate → Type 0
IsBalanced g = g.free + g.in_flight ≡ g.limit

abbrev pub AllBalanced : ConcurrencyManager → Type 0
AllBalanced m = (a : Address) → IsBalanced (gate_at m a)

put_gate-balanced :
    (a : Address) (g : Gate) (m : ConcurrencyManager)
    → AllBalanced m
    → IsBalanced g
    → AllBalanced (put_gate a g m)
put_gate-balanced a g m h k b = rw (gate_at-put_gate a b g m) (ground (arith, h b))

-- Entering a gate and leaving it again restores it.
pub leave-enter : (g g' : Gate) → enter g ≡ some g' → leave g' ≡ g
unfolding enter leave
leave-enter g g' e = ground arith

pub same_address_sound : (a b : Address) → same_address a b ≡ true → a ≡ b
unfolding same_address
same_address_sound global global h = refl
same_address_sound (tenant j) (tenant k) h = ap tenant ((str_eq_iff j k).0 h)
same_address_sound (route j) (route k) h = ap route ((str_eq_iff j k).0 h)
same_address_sound (backend j) (backend k) h = ap backend ((str_eq_iff j k).0 h)
same_address_sound _ _ h = cc
