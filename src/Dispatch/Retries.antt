-- ===== src/Dispatch/Retries.antt =====
-- Why a request is sent to a backend again.
use sentinel_distributed_api.Prelude.{
  ℕ, zero, suc, ◌+◌, ◌≤◌, ◌<◌, ◌≡◌, ◌⊎◌, inl, inr, refl, String, true, false, List, [], ◌∷◌, ◌++◌,
  arith, Bool-cases, ◌==◌, Bool, if◌then◌else◌,
}
use sentinel_distributed_api.Retry.{
  RetryPolicy, FailureKind, connection_error, timeout, DeadlineTracker, start_deadline, remaining,
  in_kinds, is_idempotent, is_retryable, has_budget_for, classify_http_status, compute_backoff,
  kind_eq,
}
use sentinel_distributed_api.Retry.Classify.{is_retryable_iff}
use sentinel_distributed_api.Router.{
  BackendInstance, RouteDefinition, Selection, chosen, no_healthy_backend_error, internal_error,
}
use sentinel_distributed_api.Breaker.{Admission, admitted, circuit_open_error, refresh}
use sentinel_distributed_api.Gateway.{
  World, Gateway, Attempt, Ending, returns, raises, breaks, retries, Outcome, Reply, responds,
  connect_error, timed_out, other_error, answers, forwarding, budgets, backs_off, checks,
  breaker_for, is_open,
}
use sentinel_distributed_api.Dispatch.{
  after_failure, settle, proceed, with_selection, with_admission, attempt, follow, loop, dispatch,
}

-- Reply `r` is a failure of kind `k`.
abbrev pub Fails : Reply → FailureKind → Type 0
Fails (responds s headers content) k = (500 ≤ s) × (s < 600) × (k ≡ classify_http_status s)
Fails connect_error k = k ≡ connection_error
Fails timed_out k = k ≡ timeout
Fails other_error k = ⊥

unanswered : (s : ℕ) → answers s ≡ false → (500 ≤ s) × (s < 600)
unfolding answers classify_http_status kind_eq
unanswered s h = ground arith

module _ (world : World) (request_id method : String) (route : RouteDefinition)
    (policy : RetryPolicy) where
  -- Attempt `n` failed in a way the policy lists, the method may be sent again, and the time to wait
  -- before it ends within the deadline.
  abbrev pub Retried : DeadlineTracker → ℕ → Type 0
  Retried d n =
      (k : FailureKind) × Fails (world.reply n) k
      × (in_kinds k policy.retryable_failures ≡ true)
      × ((is_idempotent method ≡ true) ⊎ (policy.allow_non_idempotent ≡ true))
      × (world.time n backs_off + compute_backoff n policy.base_backoff_ms (world.draw n)
          < d.start + d.total_deadline)

  -- Calls of `forward` in the attempts `n`, `n + 1`, ..., each but the last retried.
  abbrev pub Chain : DeadlineTracker → ℕ → List Attempt → Type 0
  Chain d n [] = Unit
  Chain d n (a ∷ sent) = (a.number ≡ n) × ((sent ≡ []) ⊎ Retried d n) × Chain d (suc n) sent

  -- The round `n` ends so for a reason.
  abbrev Caused : DeadlineTracker → ℕ → Ending → Type 0
  Caused d n (retries status body) = Retried d n
  Caused d n _ = Unit

  if_Caused :
      (d : DeadlineTracker) (n status : ℕ) (body : String) (cancelled : Bool)
      → Retried d n
      → Caused d n (if cancelled then raises else retries status body)
  if_Caused d n status body true h = _
  if_Caused d n status body false h = h

  within :
      (d : DeadlineTracker) (planned now : ℕ)
      → has_budget_for d planned now ≡ true
      → now + planned < d.start + d.total_deadline
  unfolding has_budget_for remaining
  within d planned now h = ground arith

  after_failure-Caused :
      (d : DeadlineTracker) (n left : ℕ) (k : FailureKind) (status : ℕ) (body : String)
      (g : Gateway)
      → Fails (world.reply n) k
      → Caused d n (after_failure world request_id method route policy d n left k status body g).0
  unfolding after_failure
  after_failure-Caused d n left k status body g f =
      let c =
        is_open (refresh (world.time n checks) (breaker_for route.backend_service_id g)).state in
      let backoff = compute_backoff n policy.base_backoff_ms (world.draw n) in
      elim (Bool-cases (is_retryable method k policy c)) [
        | inr h ↦ rw h _
        | inl h ↦ elim (Bool-cases (left == 0)) [
          | inl h0 ↦ rw (h, h0) _
          | inr h0 ↦ elim (Bool-cases (has_budget_for d backoff (world.time n backs_off))) [
            | inr hb ↦ rw (h, h0, hb) _
            | inl hb ↦
                let (_, listed, allowed) = (is_retryable_iff method k policy c).0 h in
                rw (h, h0, hb)
                  (if_Caused d n status body (world.cancelled n)
                    (k, f, listed, allowed, within d backoff _ hb))
          ]
        ]
      ]

  settle-Caused :
      (d : DeadlineTracker) (n left status : ℕ) (body : String) (r : Reply) (g : Gateway)
      → world.reply n ≡ r
      → Caused d n (settle world request_id method route policy d n left status body r g).0
  unfolding settle
  settle-Caused d n left status body (responds s headers content) g e =
      elim (Bool-cases (answers s)) [
        | inl h ↦ rw h _
        | inr h ↦ rw h (
            after_failure-Caused d n left (classify_http_status s) s content _
              (rw e ((unanswered s h).0, (unanswered s h).1, refl)))
      ]
  settle-Caused d n left status body connect_error g e =
      after_failure-Caused d n left connection_error status body _ (rw e refl)
  settle-Caused d n left status body timed_out g e =
      after_failure-Caused d n left timeout status body _ (rw e refl)
  settle-Caused d n left status body other_error g e = _

  -- What a round sends is a chain, with what comes after it if the loop goes on.
  abbrev Links : DeadlineTracker → ℕ → Ending → List Attempt → Type 0
  Links d n (retries status body) sent =
      (later : List Attempt) → Chain d (suc n) later → Chain d n (sent ++ later)
  Links d n _ sent = Chain d n sent

  one-Links :
      (d : DeadlineTracker) (n : ℕ) (e : Ending) (a : Attempt)
      → a.number ≡ n
      → Caused d n e
      → Links d n e (a ∷ [])
  one-Links d n (retries status body) a h cause = λ later c. (h, inr cause, c)
  one-Links d n (breaks status body) a h cause = (h, inl refl, _)
  one-Links d n (returns r) a h cause = (h, inl refl, _)
  one-Links d n raises a h cause = (h, inl refl, _)

  abbrev RoundLinks : DeadlineTracker → ℕ → Ending × Gateway × List Attempt → Type 0
  RoundLinks d n r = Links d n r.0 r.2

  proceed-Links :
      (d : DeadlineTracker) (n left status : ℕ) (body : String) (i : BackendInstance) (g : Gateway)
      → RoundLinks d n (proceed world request_id method route policy d n left status body i g)
  unfolding proceed
  proceed-Links d n left status body i g =
      elim (Bool-cases (remaining d (world.time n budgets) == 0)) [
        | inl h ↦ rw h _
        | inr h ↦ rw h (
            one-Links d n _ _ refl (
              settle-Caused d n left status body (world.reply n) (world.others n forwarding g)
                refl))
      ]

  with_selection-Links :
      (d : DeadlineTracker) (n left status : ℕ) (body : String) (s : Selection) (g : Gateway)
      → RoundLinks d n
          (with_selection world request_id method route policy d n left status body s g)
  unfolding with_selection
  with_selection-Links d n left status body (chosen i) g = proceed-Links d n left status body i g
  with_selection-Links d n left status body no_healthy_backend_error g = _
  with_selection-Links d n left status body internal_error g = _

  with_admission-Links :
      (d : DeadlineTracker) (n left status : ℕ) (body : String) (a : Admission) (g : Gateway)
      → RoundLinks d n
          (with_admission world request_id method route policy d n left status body a g)
  unfolding with_admission
  with_admission-Links d n left status body circuit_open_error g = _
  with_admission-Links d n left status body admitted g =
      with_selection-Links d n left status body _ _

  attempt-Links :
      (d : DeadlineTracker) (n left status : ℕ) (body : String) (g : Gateway)
      → RoundLinks d n (attempt world request_id method route policy d n left status body g)
  unfolding attempt
  attempt-Links d n left status body g = with_admission-Links d n left status body _ _

  follow-Chain :
      (d : DeadlineTracker) (n : ℕ)
      (again : ℕ → String → Gateway → Outcome × Gateway × List Attempt) (e : Ending) (g : Gateway)
      (sent : List Attempt)
      → ((status : ℕ) (body : String) (g : Gateway) → Chain d (suc n) (again status body g).2)
      → Links d n e sent
      → Chain d n (follow world request_id method route policy again e g sent).2
  unfolding follow
  follow-Chain d n again (returns r) g sent later h = h
  follow-Chain d n again raises g sent later h = h
  follow-Chain d n again (breaks status body) g sent later h = h
  follow-Chain d n again (retries status body) g sent later h = h _ (later status body g)

  loop-Chain :
      (d : DeadlineTracker) (left n status : ℕ) (body : String) (g : Gateway)
      → Chain d (suc n) (loop world request_id method route policy d left n status body g).2
  unfolding loop
  loop-Chain d zero n status body g = _
  loop-Chain d (suc left) n status body g =
      follow-Chain d (suc n) _ _ _ _ (λ status body g. loop-Chain d left (suc n) status body g)
        (attempt-Links d (suc n) left status body g)

  -- The calls of a request are made in the attempts 1, 2, ... without a gap. Each of them but the last
  -- was followed by a failure of the transport or a 5xx of a kind that the policy lists; the method is
  -- idempotent or the policy allows any; and the wait before the next call, begun at the reading of
  -- the clock that the budget was checked at, ends before the deadline.
  pub dispatch-Chain :
      (g : Gateway)
      → Chain
          (start_deadline policy.total_deadline_ms world.start)
          1
          (dispatch world request_id method route policy g).2
  unfolding dispatch
  dispatch-Chain g = loop-Chain _ policy.max_attempts 0 502 _ _
