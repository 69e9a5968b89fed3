-- ===== src/Backpressure/Deadlock.antt =====
-- Every request takes its gates in one order, so that requests never wait for one another in a ring.
use mathlib.Core.List.{Memᴰ}
use sentinel_distributed_api.Prelude.{
  ℕ, zero, suc, String, ◌+◌, ◌≤◌, ◌<◌, ◌≡◌, ◌≢◌, ◌⊎◌, inl, inr, refl, sym, subst, none, some, List,
  [], ◌∷◌, ◌++◌, arith, All, Bool-cases, Option-cases, ltb,
}
use sentinel_distributed_api.Backpressure.{
  Gate, ConcurrencyLimits, ConcurrencyManager, Address, global, tenant, route, backend, gate_at,
  path, enter,
}
use sentinel_distributed_api.Backpressure.Gates.{same_address, same_address_sound}
use sentinel_distributed_api.Backpressure.System.{
  Task, Move, grant, end, System, arrive, act, Reach, start, later, count_at, inside,
}
use sentinel_distributed_api.Backpressure.Configured.{limit_of, inside_configured}

-- How deep in the nest of `acquire_all` a gate is.
abbrev level : Address → ℕ
level global = 0
level (tenant k) = 1
level (route k) = 2
level (backend k) = 3

abbrev Above : Address → Address → Type 0
Above a b = level a < level b

abbrev Increasing : List Address → Type 0
Increasing [] = Unit
Increasing (a ∷ rest) = All (Above a) rest × Increasing rest

-- A request waits only at gates deeper than those it is in.
abbrev Ordered : Task → Type 0
Ordered t = All (λ (a : Address). All (Above a) t.waiting) t.held × Increasing t.waiting

tail-Above :
    (b : Address) (rest held : List Address)
    → All (λ (a : Address). All (Above a) (b ∷ rest)) held
    → All (λ (a : Address). All (Above a) rest) held
tail-Above b rest [] h = _
tail-Above b rest (a ∷ held) h = (h.0.1, tail-Above b rest held h.1)

Move-Ordered : {m m' : ConcurrencyManager} {t t' : Task} → Move m t m' t' → Ordered t → Ordered t'
Move-Ordered {m} {m'} {t} {t'} (grant b rest g w e em et) h =
    let h' = subst (λ ws. All (λ (a : Address). All (Above a) ws) t.held × Increasing ws) w h in
    rw et ((h'.1.0, tail-Above b rest t.held h'.0), h'.1.1)
Move-Ordered (end em et) h = rw et (_, _)

replace-Ordered :
    (before after : List Task) (t t' : Task)
    → (Ordered t → Ordered t')
    → All Ordered (before ++ t ∷ after)
    → All Ordered (before ++ t' ∷ after)
replace-Ordered [] after t t' f h = (f h.0, h.1)
replace-Ordered (u ∷ before) after t t' f h = (h.0, replace-Ordered before after t t' f h.1)

path-Increasing : (i j k : String) → Increasing (path i j k)
unfolding path
path-Increasing i j k = (
  (omega arith, (omega arith, (omega arith, _))),
  ((omega arith, (omega arith, _)), ((omega arith, _), (_, _))),
)

Reach-Ordered : {limits : ConcurrencyLimits} {s : System} → Reach limits s → All Ordered s.tasks
Reach-Ordered (start em et) = rw et _
Reach-Ordered (later r (arrive i j k em et)) = rw et ((_, path-Increasing i j k), Reach-Ordered r)
Reach-Ordered (later r (act before after t t' et mv et')) =
    rw et' (
      replace-Ordered before after t t' (Move-Ordered mv)
        (subst (All Ordered) et (Reach-Ordered r)))

-- Somebody is in a gate that is not empty.
occupied :
    (a : Address) (ts : List Task)
    → 0 < inside a ts
    → (u : Task) × Memᴰ u ts × (0 < count_at a u.held)
unfolding inside
occupied a [] h = absurd (omega arith)
occupied a (t ∷ ts) h = elim (Bool-cases (ltb 0 (count_at a t.held))) [
  | inl e ↦ (t, Memᴰ.head refl, ground arith)
  | inr e ↦ let (u, u_in, in_a) = occupied a ts (ground arith) in (u, Memᴰ.tail u_in, in_a)
]

All-Memᴰ : (ts : List Task) (t : Task) → All Ordered ts → Memᴰ t ts → Ordered t
All-Memᴰ [] t h m = elim m [ ]
All-Memᴰ (u ∷ ts) t h (Memᴰ.head e) = subst Ordered (sym e) h.0
All-Memᴰ (u ∷ ts) t h (Memᴰ.tail m) = All-Memᴰ ts t h.1 m

-- What holds of every gate of a request holds of the one it is in.
held_at :
    (P : Address → Type 0) (a : Address) (held : List Address)
    → All P held
    → 0 < count_at a held
    → P a
held_at P a [] h c = absurd (omega arith)
held_at P a (b ∷ held) h c = elim (Bool-cases (same_address b a)) [
  | inl e ↦ subst P (same_address_sound b a e) h.0
  | inr e ↦ held_at P a held h.1 (ground (arith, e))
]

-- A request that can take the next slot at once.
abbrev pub Ready : ConcurrencyManager → Task → Type 0
Ready m t =
    (a : Address) × (rest : List Address) × (g : Gate) × (t.waiting ≡ a ∷ rest)
    × (enter (gate_at m a) ≡ some g)

-- A request that is through its gates, in its dispatch.
abbrev pub Through : Task → Type 0
Through t = (t.waiting ≡ []) × (t.held ≢ [])

abbrev pub Progress : System → Type 0
Progress s = (u : Task) × Memᴰ u s.tasks × (Ready s.manager u ⊎ Through u)

List-cases :
    (ws : List Address) → (ws ≡ []) ⊎ ((a : Address) × (rest : List Address) × (ws ≡ a ∷ rest))
List-cases [] = inl refl
List-cases (a ∷ rest) = inr (a, rest, refl)

shallow : (a : Address) → level a < 4
shallow global = omega arith
shallow (tenant k) = omega arith
shallow (route k) = omega arith
shallow (backend k) = omega arith

module _ (limits : ConcurrencyLimits) (s : System) (r : Reach limits s)
    (open_gates : (a : Address) → 0 < limit_of limits a) where
  -- A request in a full gate is either through, or waits at a deeper one.
  behind :
      (a : Address)
      → enter (gate_at s.manager a) ≡ none
      → (u : Task) × Memᴰ u s.tasks
        × (Through u ⊎ ((b : Address) × (rest : List Address) × (u.waiting ≡ b ∷ rest) × Above a b))
  behind a full =
      let (_, _, blocked) = inside_configured limits s a r in
      let (u, u_in, in_a) = occupied a s.tasks (omega (arith, blocked.0 full, open_gates a)) in
      let ordered = All-Memᴰ s.tasks u (Reach-Ordered r) u_in in
      elim (List-cases u.waiting) [
        | inl e ↦
            (u, u_in, inl (e, λ h. absurd (omega (arith, subst (λ hs. 0 < count_at a hs) h in_a))))
        | inr (b, rest, e) ↦ (
          u,
          u_in,
          inr (b, rest, e, (subst (All (Above a)) e (held_at _ a u.held ordered.0 in_a)).0),
        )
      ]

  advances :
      (left : ℕ) (t : Task) (a : Address) (rest : List Address)
      → 4 ≤ left + level a
      → Memᴰ t s.tasks
      → t.waiting ≡ a ∷ rest
      → Progress s
  advances zero t a rest h t_in w = absurd (omega (arith, h, shallow a))
  advances (suc left) t a rest h t_in w = elim (Option-cases (enter (gate_at s.manager a))) [
    | inr (g, e) ↦ (t, t_in, inl (a, rest, g, w, e))
    | inl full ↦
        let (u, u_in, state) = behind a full in
        elim state [
          | inl through ↦ (u, u_in, inr through)
          | inr (b, deeper, e, above) ↦ advances left u b deeper (omega (arith, h, above)) u_in e
        ]
  ]

-- The gates never deadlock: with limits above 0, in every state that interleaved requests reach, if
-- some request still waits at a gate then some request can take a slot of the gate it waits at, or
-- is through all its gates and in its dispatch. No wait has to time out for that.
pub no_deadlock :
    (limits : ConcurrencyLimits) (s : System) (t : Task)
    → Reach limits s
    → 0 < limits.max_global
    → 0 < limits.max_per_tenant
    → 0 < limits.max_per_route
    → 0 < limits.max_per_backend
    → Memᴰ t s.tasks
    → t.waiting ≢ []
    → Progress s
no_deadlock limits s t r hg ht hr hb t_in waits = elim (List-cases t.waiting) [
  | inl e ↦ absurd (waits e)
  | inr (a, rest, e) ↦ advances limits s r open_gates 4 t a rest (omega arith) t_in e
]
  where
    open_gates : (a : Address) → 0 < limit_of limits a
    open_gates global = hg
    open_gates (tenant k) = ht
    open_gates (route k) = hr
    open_gates (backend k) = hb
