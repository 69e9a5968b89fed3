-- ===== src/Health/Warmup.antt =====
-- Rounds from the first one on in which every poll finds its instance up.
use sentinel_distributed_api.Prelude.{
  ℕ, suc, ◌+◌, ◌≤◌, ◌<◌, ◌≡◌, refl, subst, String, true, false, some, List, [], ◌∷◌, arith, All,
  Dict, insert, lookup-insert, str_eq_iff, length, leb, Bool-cases, inl, inr,
}
use sentinel_distributed_api.Router.{BackendInstance, healthy}
use sentinel_distributed_api.Health.{
  Answer, answered, http_error, other_error, Thresholds, Counters, get, succeed, check_instance,
  check_instances, check_once, run_rounds,
}
use sentinel_distributed_api.Health.Streaks.{finding}
use sentinel_distributed_api.Health.Rounds.{drains}

-- A round in which every poll finds its instance up.
abbrev pub AllUp : (String → ℕ → Answer) → Type 0
AllUp poll = (service : String) (n : ℕ) → finding (poll service n) ≡ some true

-- No counter of successes has fallen.
abbrev pub Grown : Counters → Counters → Type 0
Grown c c' = (id : String) → get id c.consecutive_successes ≤ get id c'.consecutive_successes

module _ (t : Thresholds) (positive : 0 < t.success_threshold) where
  up_succeeds :
      (a : Answer) (c : Counters) (i : BackendInstance)
      → finding a ≡ some true
      → check_instance t a c i ≡ some (succeed t c i)
  unfolding check_instance
  up_succeeds (answered s) c i h = ground (arith, h)
  up_succeeds http_error c i h = cc
  up_succeeds other_error c i h = cc

  -- An instance after `k` rounds that found it up.
  abbrev pub Warm : ℕ → Counters → BackendInstance → Type 0
  Warm k c i =
      (k ≤ get i.id c.consecutive_successes)
      × (drains i ≡ false)
      × (t.success_threshold ≤ k → i.status ≡ healthy)

  abbrev pub WarmAll : ℕ → Counters → Dict (List BackendInstance) → Type 0
  WarmAll k c = All (λ (kv : String × List BackendInstance). All (Warm k c) kv.1)

  Warm-Grown :
      (k : ℕ) (c c' : Counters) (is : List BackendInstance)
      → Grown c c'
      → All (Warm k c) is
      → All (Warm k c') is
  Warm-Grown k c c' [] g h = _
  Warm-Grown k c c' (i ∷ is) g h =
      ((omega (arith, g i.id, h.0.0), h.0.1, h.0.2), Warm-Grown k c c' is g h.1)

  succeed-Grown : (c : Counters) (i : BackendInstance) → Grown c (succeed t c i).0
  unfolding succeed get
  succeed-Grown c i id = ground (
    arith,
    lookup-insert i.id id (get i.id c.consecutive_successes + 1) c.consecutive_successes,
    str_eq_iff i.id id,
  )

  succeed-Warm :
      (k : ℕ) (c : Counters) (i : BackendInstance)
      → Warm k c i
      → let r = succeed t c i in Warm (suc k) r.0 r.1
  unfolding succeed get
  succeed-Warm k c i h =
      let n = get i.id c.consecutive_successes in
      let counted : suc k ≤ get i.id (insert i.id (n + 1) c.consecutive_successes) = ground (
        arith,
        h.0,
        lookup-insert i.id i.id (n + 1) c.consecutive_successes,
        str_eq_iff i.id i.id,
      ) in
      elim (Bool-cases (leb t.success_threshold (n + 1))) [
        | inl e ↦ rw e (counted, refl, λ enough. refl)
        | inr e ↦ rw e (counted, h.1, λ enough. absurd (ground (arith, h.0, e, enough)))
      ]

  check_instances-Warm :
      (poll : ℕ → Answer) (n k : ℕ) (c : Counters) (is : List BackendInstance)
      → ((m : ℕ) → finding (poll m) ≡ some true)
      → All (Warm k c) is
      → let r = check_instances t poll n c is in
        (r.0 ≡ true) × Grown c r.1 × All (Warm (suc k) r.1) r.2
  unfolding check_instances
  check_instances-Warm poll n k c [] up h = (refl, λ id. omega arith, _)
  check_instances-Warm poll n k c (i ∷ is) up h =
      let r = succeed t c i in
      let (done, grown, warm) =
        check_instances-Warm poll (suc n) k r.0 is up
          (Warm-Grown k c r.0 is (succeed-Grown c i) h.1) in
      rw (h.0.1, up_succeeds (poll n) c i (up n))
        (
          done,
          λ id. omega (arith, succeed-Grown c i id, grown id),
          (
            (Warm-Grown (suc k) r.0 (check_instances t poll (suc n) r.0 is).1 (r.1 ∷ []) grown
                (succeed-Warm k c i h.0, _)).0,
            warm,
          ),
        )

  WarmAll-Grown :
      (k : ℕ) (c c' : Counters) (d : Dict (List BackendInstance))
      → Grown c c'
      → WarmAll k c d
      → WarmAll k c' d
  WarmAll-Grown k c c' [] g h = _
  WarmAll-Grown k c c' ((s, is) ∷ d) g h =
      (Warm-Grown k c c' is g h.0, WarmAll-Grown k c c' d g h.1)

  check_once-Warm :
      (poll : String → ℕ → Answer) (k : ℕ) (c : Counters) (d : Dict (List BackendInstance))
      → AllUp poll
      → WarmAll k c d
      → let r = check_once t poll c d in (r.0 ≡ true) × Grown c r.1 × WarmAll (suc k) r.1 r.2
  unfolding check_once
  check_once-Warm poll k c [] up h = (refl, λ id. omega arith, _)
  check_once-Warm poll k c ((s, is) ∷ d) up h =
      let r = check_instances t (poll s) 0 c is in
      let (done, grown, warm) = check_instances-Warm (poll s) 0 k c is (up s) h.0 in
      let (all_done, more, rest) =
        check_once-Warm poll k r.1 d up (WarmAll-Grown k c r.1 d grown h.1) in
      rw done (
        all_done,
        λ id. omega (arith, grown id, more id),
        (Warm-Grown (suc k) r.1 (check_once t poll r.1 d).1 r.2 more warm, rest),
      )

  pub run_rounds-Warm :
      (polls : List (String → ℕ → Answer)) (k : ℕ) (c : Counters) (d : Dict (List BackendInstance))
      → All AllUp polls
      → WarmAll k c d
      → let r = run_rounds t polls c d in WarmAll (length polls + k) r.0 r.1
  unfolding run_rounds
  run_rounds-Warm [] k c d up h = subst (λ n. WarmAll n c d) (omega arith) h
  run_rounds-Warm (poll ∷ polls) k c d up h =
      let r = check_once t poll c d in
      let (done, grown, warm) = check_once-Warm poll k c d up.0 h in
      subst (λ n. WarmAll n (run_rounds t polls r.1 r.2).0 (run_rounds t polls r.1 r.2).1)
        (omega arith) (run_rounds-Warm polls (suc k) r.1 r.2 up.1 warm)
