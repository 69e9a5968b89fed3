-- ===== src/Dispatch/Outage.antt =====
-- How often the backends of a service are called that all fail.
pub mod Calls
pub mod Examples
use sentinel_distributed_api.Prelude.{
  ℕ, zero, suc, ◌+◌, ◌≤◌, ◌<◌, ◌≡◌, ◌⊎◌, inl, inr, refl, ap, sym, ◌∙◌, subst, String, Bool, true,
  false, not, some, List, [], ◌∷◌, ◌++◌, arith, length, length-append, if◌then◌else◌, ◌==◌, ltb,
  lookup, Bool-cases,
}
use sentinel_distributed_api.Retry.{
  RetryPolicy, FailureKind, DeadlineTracker, remaining, is_retryable, has_budget_for,
  classify_http_status, connection_error, timeout, compute_backoff,
}
use sentinel_distributed_api.Router.{
  BackendInstance, RouteDefinition, Selection, chosen, no_healthy_backend_error, internal_error,
}
use sentinel_distributed_api.Breaker.{
  CircuitBreaker, closed, opened, default_config, Admission, admitted, circuit_open_error, refresh,
  before_request, record_failure,
}
use sentinel_distributed_api.Breaker.Failing.{
  Failing, closed_admits, record_failure-Failing, record_failure_last, record_failure_last_at,
}
use sentinel_distributed_api.Breaker.Down.{
  Down, Down-record_failure, Down-before_request, Down-refresh,
}
use sentinel_distributed_api.Gateway.{
  World, Gateway, Attempt, Ending, returns, raises, breaks, retries, Outcome, Reply, responds,
  connect_error, timed_out, other_error, answers, forwarding, sleeping, Wait, Moment, asks, records,
  opens, checks, budgets, backs_off, breaker_for, set_breaker, is_open,
}
use sentinel_distributed_api.Dispatch.{
  fail_breaker, after_failure, settle, proceed, with_selection, with_admission, attempt, follow,
  loop, dispatch,
}
use sentinel_distributed_api.Dispatch.Failures.{breaker_for-set_breaker}

-- A backend that is down: it refuses, times out, or answers with a status from 500 to 599.
abbrev pub Fails : Reply → Type 0
Fails (responds s headers content) = answers s ≡ false
Fails connect_error = Unit
Fails timed_out = Unit
Fails other_error = ⊥

module _ (lo until : ℕ) (within : until ≤ lo + 10_000_000) (world : World)
    (request_id method : String) (route : RouteDefinition) (policy : RetryPolicy)
    (readings : (n : ℕ) (m : Moment) → (lo ≤ world.time n m) × (world.time n m < until))
    (failing : (n : ℕ) → Fails (world.reply n))
    (others_fail : (k n : ℕ) (w : Wait) (g : Gateway)
      → Down until k (breaker_for route.backend_service_id g)
      → Down until k (breaker_for route.backend_service_id (world.others n w g))) where
  abbrev service : String
  service = route.backend_service_id

  abbrev On : ℕ → Gateway → Type 0
  On k g = Down until k (breaker_for service g)

  set_breaker-On :
      (k : ℕ) (b : CircuitBreaker) (g : Gateway) → Down until k b → On k (set_breaker service b g)
  set_breaker-On k b g h = subst (Down until k) (sym (breaker_for-set_breaker service b g)) h

  fail_breaker-On :
      (k n : ℕ) (g : Gateway)
      → On (suc k) g
      → On k (fail_breaker world request_id method route policy n g)
  unfolding fail_breaker
  fail_breaker-On k n g h = set_breaker-On k _ g (
      Down-record_failure until k (world.time n records) (world.time n opens) _ h
        (omega (arith, within, readings n opens)))

  if_On :
      (k : ℕ) (b : Bool) (x y : Ending × Gateway)
      → On k x.1
      → On k y.1
      → let r : Ending × Gateway = if b then x else y in On k r.1
  if_On k true x y hx hy = hx
  if_On k false x y hx hy = hy

  after_failure-On :
      (k : ℕ) (d : DeadlineTracker) (n left : ℕ) (kind : FailureKind) (status : ℕ) (body : String)
      (g : Gateway)
      → On k g
      → On k (after_failure world request_id method route policy d n left kind status body g).1
  unfolding after_failure
  after_failure-On k d n left kind status body g h =
      let b = refresh (world.time n checks) (breaker_for service g) in
      let same : b ≡ breaker_for service g = Down-refresh until k _ _ h (readings n checks).1 in
      let now = set_breaker-On k b g (subst (Down until k) (sym same) h) in
      if_On k (not (is_retryable method kind policy (is_open b.state))) _ _ now (
        if_On k (left == 0) _ _ now (
          if_On k
            (not (
              has_budget_for d (compute_backoff n policy.base_backoff_ms (world.draw n))
                (world.time n backs_off)))
            _ _ now (others_fail k n sleeping _ now)))

  settle-On :
      (k : ℕ) (d : DeadlineTracker) (n left status : ℕ) (body : String) (r : Reply) (g : Gateway)
      → Fails r
      → On (suc k) g
      → On k (settle world request_id method route policy d n left status body r g).1
  unfolding settle
  settle-On k d n left status body (responds s headers content) g down h =
      rw down
        (after_failure-On k d n left (classify_http_status s) s content _ (fail_breaker-On k n g h))
  settle-On k d n left status body connect_error g down h =
      after_failure-On k d n left connection_error status body _ (fail_breaker-On k n g h)
  settle-On k d n left status body timed_out g down h =
      after_failure-On k d n left timeout status body _ (fail_breaker-On k n g h)
  settle-On k d n left status body other_error g down h = elim down [ ]

  -- Of `k` calls that may fail, those that were made leave the rest.
  abbrev pub Paid {ℓ} : {X : Type ℓ} → ℕ → X × Gateway × List Attempt → Type 0
  Paid k r = (rest : ℕ) × (length r.2 + rest ≤ k) × On rest r.1

  proceed-Paid :
      (k : ℕ) (d : DeadlineTracker) (n left status : ℕ) (body : String) (i : BackendInstance)
      (g : Gateway)
      → On (suc k) g
      → Paid (suc k) (proceed world request_id method route policy d n left status body i g)
  unfolding proceed
  proceed-Paid k d n left status body i g h =
      elim (Bool-cases (remaining d (world.time n budgets) == 0)) [
        | inl late ↦ rw late (k, omega arith, fail_breaker-On k n g h)
        | inr early ↦ rw early (
          k,
          omega arith,
          settle-On k d n left status body (world.reply n) _ (failing n)
              (others_fail (suc k) n forwarding g h),
        )
      ]

  with_selection-Paid :
      (k : ℕ) (d : DeadlineTracker) (n left status : ℕ) (body : String) (s : Selection)
      (g : Gateway)
      → On (suc k) g
      → Paid (suc k) (with_selection world request_id method route policy d n left status body s g)
  unfolding with_selection
  with_selection-Paid k d n left status body (chosen i) g h =
      proceed-Paid k d n left status body i g h
  with_selection-Paid k d n left status body no_healthy_backend_error g h =
      (k, omega arith, fail_breaker-On k n g h)
  with_selection-Paid k d n left status body internal_error g h = (suc k, omega arith, h)

  admitted-Paid :
      (k : ℕ) (d : DeadlineTracker) (n left status : ℕ) (body : String) (g : Gateway)
      → 0 < k
      → On k g
      → Paid k (with_admission world request_id method route policy d n left status body admitted g)
  unfolding with_admission
  admitted-Paid zero d n left status body g more h = absurd (omega arith)
  admitted-Paid (suc k) d n left status body g more h =
      with_selection-Paid k d n left status body _ _ h

  attempt-Paid :
      (k : ℕ) (d : DeadlineTracker) (n left status : ℕ) (body : String) (g : Gateway)
      → On k g
      → Paid k (attempt world request_id method route policy d n left status body g)
  unfolding attempt with_admission
  attempt-Paid k d n left status body g h =
      let asked = Down-before_request until k (world.time n asks) _ h (readings n asks).1 in
      let now = set_breaker-On k _ g h in
      elim asked [
        | inl (e, more) ↦ rw e (admitted-Paid k d n left status body _ more now)
        | inr e ↦ rw e (k, omega arith, now)
      ]

  follow-Paid :
      (k : ℕ) (again : ℕ → String → Gateway → Outcome × Gateway × List Attempt) (e : Ending)
      (g : Gateway) (sent : List Attempt)
      → ((j : ℕ) (status : ℕ) (body : String) → On j g → Paid j (again status body g))
      → Paid k (e, g, sent)
      → Paid k (follow world request_id method route policy again e g sent)
  unfolding follow
  follow-Paid k again (returns r) g sent later now = now
  follow-Paid k again raises g sent later now = now
  follow-Paid k again (breaks status body) g sent later now = now
  follow-Paid k again (retries status body) g sent later (rest, few, h) =
      let (rest', few', h') = later rest status body h in
      (rest', omega (arith, few, few', length-append sent (again status body g).2), h')

  loop-Paid :
      (k : ℕ) (d : DeadlineTracker) (left n status : ℕ) (body : String) (g : Gateway)
      → On k g
      → Paid k (loop world request_id method route policy d left n status body g)
  unfolding loop
  loop-Paid k d zero n status body g h = (k, omega arith, h)
  loop-Paid k d (suc left) n status body g h =
      follow-Paid k _ _ _ _ (λ j status body h'. loop-Paid j d left (suc n) status body _ h')
        (attempt-Paid k d (suc n) left status body g h)

  pub dispatch-Paid :
      (k : ℕ) (g : Gateway) → On k g → Paid k (dispatch world request_id method route policy g)
  unfolding dispatch
  dispatch-Paid k g h = loop-Paid k _ policy.max_attempts 0 502 _ _ (set_breaker-On k _ g h)
