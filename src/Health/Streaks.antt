-- ===== src/Health/Streaks.antt =====
-- One instance under polls: its status follows runs of equal outcomes, not single polls.
use sentinel_distributed_api.Prelude.{
  ℕ, suc, ◌+◌, ◌≤◌, ◌<◌, ◌≡◌, ◌⊎◌, inl, inr, refl, String, Bool, true, false, not, Option, none,
  some, List, [], ◌∷◌, arith, ltb, leb, if◌then◌else◌, lookup, insert, lookup-insert, str_eq_refl,
  count, Dict, Bool-cases,
}
use sentinel_distributed_api.Router.{InstanceStatus, healthy, unhealthy, BackendInstance}
use sentinel_distributed_api.Health.{
  Answer, answered, http_error, other_error, Thresholds, Counters, no_polls, get, succeed, fail,
  check_instance,
}

-- Whether a poll found the instance up; `none` if an exception ended it.
abbrev pub finding : Answer → Option Bool
finding (answered s) = some (ltb s 500)
finding http_error = some false
finding other_error = none

abbrev cons {ℓ} : {A : Type ℓ} → Option A → List A → List A
cons none xs = xs
cons (some x) xs = x ∷ xs

-- The findings of polls, the latest first.
unfoldable pub findings : List Answer → List Bool
findings [] = []
findings (a ∷ older) = cons (finding a) (findings older)

abbrev same : Bool → Bool → Bool
same true b = b
same false b = not b

-- How many of the latest findings are `b`, up to the first that is not.
unfoldable pub streak : Bool → List Bool → ℕ
streak b [] = 0
streak b (x ∷ xs) = if same b x then suc (streak b xs) else 0

abbrev or_same {ℓ} : {A : Type ℓ} → Option A → A → A
or_same none x = x
or_same (some y) _ = y

module _ (t : Thresholds) (i : BackendInstance) where
  -- The counters and the instance after polls, the latest first.
  unfoldable pub polls : List Answer → Counters × BackendInstance
  unfolding check_instance
  polls [] = (no_polls, i)
  polls (a ∷ older) = let (c, j) = polls older in or_same (check_instance t a c j) (c, j)

  -- What the counters count.
  abbrev pub Counted : List Bool → Counters × BackendInstance → Type 0
  Counted fs (c, j) =
      (j.id ≡ i.id)
      × (get i.id c.consecutive_successes ≡ streak true fs)
      × (get i.id c.consecutive_failures ≡ streak false fs)
      × (j.failure_count ≡ i.failure_count + count not fs)

  get-insert : (n : ℕ) (d : Dict ℕ) (id : String) → get id (insert id n d) ≡ n
  unfolding get
  get-insert n d id = rw (lookup-insert id id n d, str_eq_refl id) refl

  succeed-Counted :
      (fs : List Bool) (c : Counters) (j : BackendInstance)
      → Counted fs (c, j)
      → Counted (true ∷ fs) (succeed t c j)
  unfolding succeed streak
  succeed-Counted fs c j h = grind (arith, h, get-insert)

  fail-Counted :
      (fs : List Bool) (c : Counters) (j : BackendInstance)
      → Counted fs (c, j)
      → Counted (false ∷ fs) (fail t c j)
  unfolding fail streak
  fail-Counted fs c j h = grind (arith, h, get-insert)

  polls-Counted : (as' : List Answer) → Counted (findings as') (polls as')
  unfolding polls findings check_instance
  polls-Counted [] =
      (refl, unfold get streak lookup in refl, unfold get streak lookup in refl, omega arith)
  polls-Counted (answered s ∷ older) = elim (Bool-cases (ltb s 500)) [
    | inl up ↦
        rw up
          (succeed-Counted (findings older) (polls older).0 (polls older).1 (polls-Counted older))
    | inr down ↦
        rw down
          (fail-Counted (findings older) (polls older).0 (polls older).1 (polls-Counted older))
  ]
  polls-Counted (http_error ∷ older) =
      fail-Counted (findings older) (polls older).0 (polls older).1 (polls-Counted older)
  polls-Counted (other_error ∷ older) = polls-Counted older

  -- The status that the findings call for.
  abbrev pub Follows : List Bool → InstanceStatus → InstanceStatus → Type 0
  Follows fs old new =
      (new ≡ old)
      ⊎ ((new ≡ healthy) × (t.success_threshold ≤ streak true fs))
      ⊎ ((new ≡ unhealthy) × (t.failure_threshold ≤ streak false fs))

  succeed-Follows :
      (fs : List Bool) (c : Counters) (j : BackendInstance)
      → Counted fs (c, j)
      → Follows (true ∷ fs) j.status (succeed t c j).1.status
  unfolding succeed streak
  succeed-Follows fs c j h =
      elim (Bool-cases (leb t.success_threshold (get j.id c.consecutive_successes + 1))) [
        | inl enough ↦ rw enough (inr (inl (refl, ground (arith, h, enough))))
        | inr few ↦ rw few (inl refl)
      ]

  fail-Follows :
      (fs : List Bool) (c : Counters) (j : BackendInstance)
      → Counted fs (c, j)
      → Follows (false ∷ fs) j.status (fail t c j).1.status
  unfolding fail streak
  fail-Follows fs c j h =
      elim (Bool-cases (leb t.failure_threshold (get j.id c.consecutive_failures + 1))) [
        | inl enough ↦ rw enough (inr (inr (refl, ground (arith, h, enough))))
        | inr few ↦ rw few (inl refl)
      ]

  -- A poll changes the status only to HEALTHY after `success_threshold` findings in a row that the
  -- instance is up, or to UNHEALTHY after `failure_threshold` in a row that it is down.
  pub polls_flip :
      (a : Answer) (older : List Answer)
      → Follows (findings (a ∷ older)) (polls older).1.status (polls (a ∷ older)).1.status
  unfolding polls findings check_instance
  polls_flip (answered s) older = elim (Bool-cases (ltb s 500)) [
    | inl up ↦
        rw up
          (succeed-Follows (findings older) (polls older).0 (polls older).1 (polls-Counted older))
    | inr down ↦
        rw down
          (fail-Follows (findings older) (polls older).0 (polls older).1 (polls-Counted older))
  ]
  polls_flip http_error older =
      fail-Follows (findings older) (polls older).0 (polls older).1 (polls-Counted older)
  polls_flip other_error older = inl refl

  -- The status that a streak at its threshold settles.
  abbrev pub Settled : List Bool → BackendInstance → Type 0
  Settled fs j =
      (t.success_threshold ≤ streak true fs → 0 < streak true fs → j.status ≡ healthy)
      × (t.failure_threshold ≤ streak false fs → 0 < streak false fs → j.status ≡ unhealthy)

  succeed_settles :
      (fs : List Bool) (c : Counters) (j : BackendInstance)
      → Counted fs (c, j)
      → Settled (true ∷ fs) (succeed t c j).1
  unfolding succeed streak
  succeed_settles fs c j h =
      (λ enough some_up. ground (arith, h, enough), λ enough none. absurd (omega arith))

  fail_settles :
      (fs : List Bool) (c : Counters) (j : BackendInstance)
      → Counted fs (c, j)
      → Settled (false ∷ fs) (fail t c j).1
  unfolding fail streak
  fail_settles fs c j h =
      (λ enough none. absurd (omega arith), λ enough some_down. ground (arith, h, enough))

  polls-Settled : (older : List Answer) → Settled (findings older) (polls older).1
  unfolding polls findings check_instance
  polls-Settled [] = unfold streak in (λ e z. absurd (omega arith), λ e z. absurd (omega arith))
  polls-Settled (answered s ∷ older) = elim (Bool-cases (ltb s 500)) [
    | inl up ↦
        rw up
          (succeed_settles (findings older) (polls older).0 (polls older).1 (polls-Counted older))
    | inr down ↦
        rw down
          (fail_settles (findings older) (polls older).0 (polls older).1 (polls-Counted older))
  ]
  polls-Settled (http_error ∷ older) =
      fail_settles (findings older) (polls older).0 (polls older).1 (polls-Counted older)
  polls-Settled (other_error ∷ older) = polls-Settled older

  -- With thresholds above 0: an instance whose latest `success_threshold` findings are up is
  -- HEALTHY, whatever came before.
  pub polls_up :
      (older : List Answer)
      → 0 < t.success_threshold
      → t.success_threshold ≤ streak true (findings older)
      → (polls older).1.status ≡ healthy
  polls_up older positive enough = (polls-Settled older).0 enough (omega arith)

  -- An instance whose latest `failure_threshold` findings are down is UNHEALTHY, whatever came
  -- before, if the threshold is above 0; and `failure_count` has counted every finding that it is
  -- down.
  pub polls_down :
      (older : List Answer)
      → 0 < t.failure_threshold
      → t.failure_threshold ≤ streak false (findings older)
      → ((polls older).1.status ≡ unhealthy)
        × ((polls older).1.failure_count ≡ i.failure_count + count not (findings older))
  polls_down older positive enough =
      ((polls-Settled older).1 enough (omega arith), (polls-Counted older).3)
