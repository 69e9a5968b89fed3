-- ===== src/Health/Rounds.antt =====
-- Whole rounds of the checker: who is polled, and what a round leaves alone.
use sentinel_distributed_api.Prelude.{
  ℕ, suc, ◌+◌, subst, ◌≡◌, refl, ap, ◌∙◌, String, Bool, false, Option, none, some, List, [], ◌∷◌,
  map, Dict, keep, Bool-cases, Option-cases, inl, inr, ltb, leb,
}
use sentinel_distributed_api.Router.{BackendInstance}
use sentinel_distributed_api.Health.{
  Answer, answered, http_error, other_error, Thresholds, Counters, get, succeed, fail,
  check_instance, check_instances, check_once, run_rounds, is_draining,
}

abbrev pub drains : BackendInstance → Bool
drains i = is_draining i.status

abbrev pub Endpoint : Type 0
Endpoint = String × String × ℕ × ℕ

abbrev pub endpoint : BackendInstance → Endpoint
endpoint i = (i.id, i.host, i.port, i.weight)

-- The draining instances are the same, untouched, and the others are where they were.
abbrev pub Kept : List BackendInstance → List BackendInstance → Type 0
Kept is is' = (keep drains is' ≡ keep drains is) × (map endpoint is' ≡ map endpoint is)

abbrev pub KeptAll : Dict (List BackendInstance) → Dict (List BackendInstance) → Type 0
KeptAll [] [] = Unit
KeptAll ((s, is) ∷ d) ((s', is') ∷ d') = (s' ≡ s) × Kept is is' × KeptAll d d'
KeptAll _ _ = ⊥

module _ (t : Thresholds) where
  succeed_keeps :
      (c : Counters) (i : BackendInstance)
      → drains i ≡ false
      → (drains (succeed t c i).1 ≡ false) × (endpoint (succeed t c i).1 ≡ endpoint i)
  unfolding succeed
  succeed_keeps c i h =
      elim (Bool-cases (leb t.success_threshold (get i.id c.consecutive_successes + 1))) [
        | inl e ↦ rw e (refl, refl)
        | inr e ↦ rw e (h, refl)
      ]

  fail_keeps :
      (c : Counters) (i : BackendInstance)
      → drains i ≡ false
      → (drains (fail t c i).1 ≡ false) × (endpoint (fail t c i).1 ≡ endpoint i)
  unfolding fail
  fail_keeps c i h =
      elim (Bool-cases (leb t.failure_threshold (get i.id c.consecutive_failures + 1))) [
        | inl e ↦ rw e (refl, refl)
        | inr e ↦ rw e (h, refl)
      ]

  abbrev Keeps : BackendInstance → Option (Counters × BackendInstance) → Type 0
  Keeps i none = Unit
  Keeps i (some r) = (drains r.1 ≡ false) × (endpoint r.1 ≡ endpoint i)

  check_instance-Keeps :
      (a : Answer) (c : Counters) (i : BackendInstance)
      → drains i ≡ false
      → Keeps i (check_instance t a c i)
  unfolding check_instance
  check_instance-Keeps (answered s) c i h = elim (Bool-cases (ltb s 500)) [
    | inl up ↦ rw up (succeed_keeps c i h)
    | inr down ↦ rw down (fail_keeps c i h)
  ]
  check_instance-Keeps http_error c i h = fail_keeps c i h
  check_instance-Keeps other_error c i h = _

  check_instances_keep :
      (poll : ℕ → Answer) (n : ℕ) (c : Counters) (is : List BackendInstance)
      → Kept is (check_instances t poll n c is).2
  unfolding check_instances
  check_instances_keep poll n c [] = (refl, refl)
  check_instances_keep poll n c (i ∷ is) = elim (Bool-cases (drains i)) [
    | inl yes_drains ↦
        let k = check_instances_keep poll (suc n) c is in
        rw yes_drains (rw yes_drains (ap (λ xs. i ∷ xs) k.0, ap (λ xs. endpoint i ∷ xs) k.1))
    | inr stays ↦ rw stays (elim (Option-cases (check_instance t (poll n) c i)) [
      | inl e ↦ rw (e, stays) (refl, refl)
      | inr (r, e) ↦
          let k = check_instances_keep poll (suc n) r.0 is in
          let (d, same) = subst (Keeps i) e (check_instance-Keeps (poll n) c i stays) in
          rw e (rw d k.0, rw (same, k.1) refl)
    ])
  ]

  refl_kept : (d : Dict (List BackendInstance)) → KeptAll d d
  refl_kept [] = _
  refl_kept ((s, is) ∷ d) = (refl, (refl, refl), refl_kept d)

  trans_kept : (d e f : Dict (List BackendInstance)) → KeptAll d e → KeptAll e f → KeptAll d f
  trans_kept [] [] (x ∷ f) h k = elim k [ ]
  trans_kept [] (x ∷ e) f h k = elim h [ ]
  trans_kept (x ∷ d) [] f h k = elim h [ ]
  trans_kept (x ∷ d) (y ∷ e) [] h k = elim k [ ]
  trans_kept [] [] [] h k = _
  trans_kept ((s, is) ∷ d) ((s', is') ∷ e) ((s2, is2) ∷ f) h k =
      (k.0 ∙ h.0, (k.1.0 ∙ h.1.0, k.1.1 ∙ h.1.1), trans_kept d e f h.2 k.2)

  check_once_keeps :
      (poll : String → ℕ → Answer) (c : Counters) (d : Dict (List BackendInstance))
      → KeptAll d (check_once t poll c d).2
  unfolding check_once
  check_once_keeps poll c [] = _
  check_once_keeps poll c ((service, is) ∷ rest) =
      let k = check_instances_keep (poll service) 0 c is in
      elim (Bool-cases (check_instances t (poll service) 0 c is).0) [
        | inl done ↦
            rw done
              (refl, k, check_once_keeps poll (check_instances t (poll service) 0 c is).1 rest)
        | inr stopped ↦ rw stopped (refl, k, refl_kept rest)
      ]

  -- Over any number of rounds, whatever the polls return or raise: a draining instance is never
  -- touched, its failure count included, and no instance comes, goes or moves to another address.
  pub run_rounds_keep :
      (polls : List (String → ℕ → Answer)) (c : Counters) (d : Dict (List BackendInstance))
      → KeptAll d (run_rounds t polls c d).1
  unfolding run_rounds
  run_rounds_keep [] c d = refl_kept d
  run_rounds_keep (poll ∷ polls) c d =
      let r = check_once t poll c d in
      trans_kept d r.2 (run_rounds t polls r.1 r.2).1 (check_once_keeps poll c d)
        (run_rounds_keep polls r.1 r.2)
