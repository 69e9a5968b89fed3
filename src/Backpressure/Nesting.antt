-- ===== src/Backpressure/Nesting.antt =====
-- One request through the nested gates: what it takes it gives back.
use sentinel_distributed_api.Prelude.{
  String, Bool-cases, ◌≡◌, ◌≢◌, ◌⊎◌, inl, inr, refl, sym, ap, ◌∙◌, Bool, true, false, some, List,
  [], ◌∷◌, arith, if◌then◌else◌, Option-cases,
}
use sentinel_distributed_api.Backpressure.{
  refused, Gate, ConcurrencyManager, Address, gate_at, put_gate, create, enter, leave, leave_at,
  leave_all, create_all, enter_now, try_enter, enter_all, acquire_all, acquired, inner_first,
  release_all,
}
use sentinel_distributed_api.Backpressure.Gates.{
  same_address, same_address_refl, same_address_sound, gate_at-put_gate, leave-enter,
}

-- The same gates, up to gates that are created and not in use.
abbrev pub Same : ConcurrencyManager → ConcurrencyManager → Type 0
Same m m' = (a : Address) → gate_at m a ≡ gate_at m' a

put_gate-Same :
    (b : Address) (g : Gate) (m m' : ConcurrencyManager)
    → Same m m'
    → Same (put_gate b g m) (put_gate b g m')
put_gate-Same b g m m' h a =
    rw (gate_at-put_gate b a g m, gate_at-put_gate b a g m')
      (ap (λ x. if same_address b a then g else x) (h a))

put_gate-twice :
    (b : Address) (g g' : Gate) (m : ConcurrencyManager)
    → Same (put_gate b g (put_gate b g' m)) (put_gate b g m)
put_gate-twice b g g' m a = ground (
  arith,
  gate_at-put_gate b a g (put_gate b g' m),
  gate_at-put_gate b a g m,
  gate_at-put_gate b a g' m,
)

-- Putting back what stands at an address changes nothing.
put_gate-back :
    (b : Address) (g : Gate) (m : ConcurrencyManager) → gate_at m b ≡ g → Same (put_gate b g m) m
put_gate-back b g m e a = rw (gate_at-put_gate b a g m) (choose (same_address b a) refl)
  where
    choose :
        (same : Bool) → same_address b a ≡ same → (if same then g else gate_at m a) ≡ gate_at m a
    choose true h = sym e ∙ ap (gate_at m) (same_address_sound b a h)
    choose false h = refl

leave_all-Same :
    (held : List Address) (m m' : ConcurrencyManager)
    → Same m m'
    → Same (leave_all held m) (leave_all held m')
unfolding leave_all leave_at
leave_all-Same [] m m' h = h
leave_all-Same (b ∷ held) m m' h =
    leave_all-Same held _ _ (rw (h b) (put_gate-Same b (leave (gate_at m' b)) m m' h))

pub release_all-Same :
    (gates : List Address) (m m' : ConcurrencyManager)
    → Same m m'
    → Same (release_all gates m) (release_all gates m')
unfolding release_all
release_all-Same gates m m' h = leave_all-Same (inner_first [] gates) m m' h

create_all-Same : (gates : List Address) (m : ConcurrencyManager) → Same (create_all gates m) m
unfolding create_all create
create_all-Same [] m a = refl
create_all-Same (b ∷ gates) m a = create_all-Same gates _ a ∙ put_gate-back b (gate_at m b) m refl a

-- Entering a gate and leaving it again.
put-leave :
    (b : Address) (g : Gate) (m : ConcurrencyManager)
    → enter (gate_at m b) ≡ some g
    → Same (leave_at b (put_gate b g m)) m
unfolding leave_at
put-leave b g m e a =
    let here : gate_at (put_gate b g m) b ≡ g =
      rw (gate_at-put_gate b b g m, same_address_refl b) in
    let back : leave (gate_at (put_gate b g m) b) ≡ gate_at m b =
      ap leave here ∙ leave-enter (gate_at m b) g e in
    rw back (put_gate-twice b (gate_at m b) g m a ∙ put_gate-back b (gate_at m b) m refl a)

module _ (waited : Address → ConcurrencyManager → Bool × ConcurrencyManager) where
  enter_now-leave :
      (b : Address) (m m' : ConcurrencyManager)
      → enter_now waited b m ≡ some m'
      → Same (leave_at b m') m
  unfolding enter_now
  enter_now-leave b m m' e = elim (Option-cases (enter (gate_at m b))) [
    | inl full ↦ absurd (ground arith)
    | inr (g, entered) ↦
        let em : m' ≡ put_gate b g m = ground arith in rw em (put-leave b g m entered)
  ]

refused_lem : (cancelled : Bool) (scope : String) → refused cancelled scope ≢ acquired
unfolding refused
refused_lem true scope e = cc
refused_lem false scope e = cc

module _ (waited : Address → ConcurrencyManager → Bool × ConcurrencyManager)
    (quiet : (a : Address) (m : ConcurrencyManager) → Same (waited a m).1 m) where
  try_enter-Same :
      (b : Address) (m : ConcurrencyManager)
      → let r = try_enter waited b m in
        ((r.0 ≡ true) × Same (leave_at b r.1) m) ⊎ ((r.0 ≡ false) × Same r.1 m)
  unfolding try_enter
  try_enter-Same b m = elim (Option-cases (enter_now waited b m)) [
    | inr (m', e) ↦ rw (e, try_enter) (inl (refl, enter_now-leave waited b m m' e))
    | inl full ↦ elim (Bool-cases (waited b m).0) [
      | inl gone ↦ rw (full, gone, try_enter) (inr (refl, quiet b m))
      | inr stays ↦ elim (Option-cases (enter_now waited b (waited b m).1)) [
        | inr (m', e) ↦
            rw (full, stays, e, try_enter)
              (inl (refl, λ a. enter_now-leave waited b (waited b m).1 m' e a ∙ quiet b m a))
        | inl still ↦ rw (full, stays, still, try_enter) (inr (refl, quiet b m))
      ]
    ]
  ]

  enter_all-Same :
      (held rest : List Address) (m : ConcurrencyManager)
      → let r = enter_all waited held rest m in
        ((r.0 ≡ acquired) × Same (leave_all (inner_first held rest) r.1) (leave_all held m))
        ⊎ ((r.0 ≢ acquired) × Same r.1 (leave_all held m))
  unfolding enter_all inner_first
  enter_all-Same held [] m = inl (refl, λ a. refl)
  enter_all-Same held (b ∷ rest) m = elim (try_enter-Same b m) [
    | inr (e, same) ↦ rw e (inr (refused_lem _ _, leave_all-Same held _ m same))
    | inl (e, same) ↦ rw e (elim (enter_all-Same (b ∷ held) rest (try_enter waited b m).1) [
      | inl (h, s) ↦ inl (h, λ a. s a ∙ back held b m same a)
      | inr (h, s) ↦ inr (h, λ a. s a ∙ back held b m same a)
    ])
  ]
    where
      back :
          (held : List Address) (b : Address) (m : ConcurrencyManager)
          → Same (leave_at b (try_enter waited b m).1) m
          → Same (leave_all (b ∷ held) (try_enter waited b m).1) (leave_all held m)
      back held b m same = unfold leave_all in leave_all-Same held _ m same

  -- A request takes all of its gates or none: it is let in, and leaving restores every gate, or it
  -- is rejected, and every gate is already as it was. (While it waits, the others give back what
  -- they take.)
  pub acquire_all_restores :
      (gates : List Address) (m : ConcurrencyManager)
      → let r = acquire_all waited gates m in
        ((r.0 ≡ acquired) × Same (release_all gates r.1) m) ⊎ ((r.0 ≢ acquired) × Same r.1 m)
  unfolding acquire_all release_all leave_all
  acquire_all_restores gates m = elim (enter_all-Same [] gates (create_all gates m)) [
    | inl (h, s) ↦ inl (h, λ a. s a ∙ create_all-Same gates m a)
    | inr (h, s) ↦ inr (h, λ a. s a ∙ create_all-Same gates m a)
  ]
