-- ===== src/Dispatch/Concurrency.antt =====
-- A dispatch and the gates around it: it holds slots and touches none.
use sentinel_distributed_api.Prelude.{
  ℕ, zero, suc, inl, inr, refl, ◌∙◌, String, Bool, true, false, not, List, if◌then◌else◌, ◌==◌,
  Bool-cases, ltb,
}
use sentinel_distributed_api.Retry.{
  RetryPolicy, FailureKind, DeadlineTracker, remaining, is_retryable, has_budget_for,
  classify_http_status,
}
use sentinel_distributed_api.Router.{
  BackendInstance, RouteDefinition, Selection, chosen, no_healthy_backend_error, internal_error,
}
use sentinel_distributed_api.Breaker.{Admission, admitted, circuit_open_error}
use sentinel_distributed_api.Backpressure.Nesting.{Same}
use sentinel_distributed_api.Gateway.{
  World, Gateway, Attempt, Ending, returns, raises, breaks, retries, Outcome, Reply, responds,
  connect_error, timed_out, other_error, answers, forwarding, sleeping, Wait, set_breaker, budgets,
}
use sentinel_distributed_api.Dispatch.{
  after_failure, settle, proceed, with_selection, with_admission, attempt, follow, loop, dispatch,
  fail_breaker, pass_breaker,
}

-- The same gates.
abbrev pub Kept : Gateway → Gateway → Type 0
Kept g g' = Same g'.concurrency g.concurrency

if_Kept :
    (b : Bool) (x y : Ending × Gateway) (g : Gateway)
    → Kept g x.1
    → Kept g y.1
    → let r : Ending × Gateway = if b then x else y in Kept g r.1
if_Kept true x y g hx hy = hx
if_Kept false x y g hx hy = hy

if_gate-Kept : (b : Bool) (x y g : Gateway) → Kept g x → Kept g y → Kept g (if b then x else y)
if_gate-Kept true x y g hx hy = hx
if_gate-Kept false x y g hx hy = hy

module _ (world : World) (request_id method : String) (route : RouteDefinition)
    (policy : RetryPolicy)
    (quiet : (n : ℕ) (w : Wait) (g : Gateway) → Kept g (world.others n w g)) where
  after_failure-Kept :
      (d : DeadlineTracker) (n left : ℕ) (k : FailureKind) (status : ℕ) (body : String)
      (g : Gateway)
      → Kept g (after_failure world request_id method route policy d n left k status body g).1
  unfolding after_failure set_breaker
  after_failure-Kept d n left k status body g =
      if_Kept (not (is_retryable method k policy _)) _ _ g (λ a. refl)
        (if_Kept (left == 0) _ _ g (λ a. refl)
          (if_Kept (not (has_budget_for d _ _)) _ _ g (λ a. refl) (quiet n sleeping _)))

  settle-Kept :
      (d : DeadlineTracker) (n left status : ℕ) (body : String) (r : Reply) (g : Gateway)
      → Kept g (settle world request_id method route policy d n left status body r g).1
  unfolding settle fail_breaker pass_breaker set_breaker
  settle-Kept d n left status body (responds s headers content) g =
      if_Kept (answers s) _ _ g
        (if_gate-Kept (ltb s 500) (pass_breaker world request_id method route policy n g) g g
          (λ a. refl) (λ a. refl))
        (after_failure-Kept d n left (classify_http_status s) s content
          (fail_breaker world request_id method route policy n g))
  settle-Kept d n left status body connect_error g =
      after_failure-Kept d n left _ status body
        (fail_breaker world request_id method route policy n g)
  settle-Kept d n left status body timed_out g =
      after_failure-Kept d n left _ status body
        (fail_breaker world request_id method route policy n g)
  settle-Kept d n left status body other_error g = λ a. refl

  proceed-Kept :
      (d : DeadlineTracker) (n left status : ℕ) (body : String) (i : BackendInstance) (g : Gateway)
      → Kept g (proceed world request_id method route policy d n left status body i g).1
  unfolding proceed fail_breaker set_breaker
  proceed-Kept d n left status body i g =
      elim (Bool-cases (remaining d (world.time n budgets) == 0)) [
        | inl h ↦ rw h (λ a. refl)
        | inr h ↦ rw h (λ a.
            settle-Kept d n left status body (world.reply n) (world.others n forwarding g) a
            ∙ quiet n forwarding g a)
      ]

  with_selection-Kept :
      (d : DeadlineTracker) (n left status : ℕ) (body : String) (s : Selection) (g : Gateway)
      → Kept g (with_selection world request_id method route policy d n left status body s g).1
  unfolding with_selection fail_breaker set_breaker
  with_selection-Kept d n left status body (chosen i) g = proceed-Kept d n left status body i g
  with_selection-Kept d n left status body no_healthy_backend_error g = λ a. refl
  with_selection-Kept d n left status body internal_error g = λ a. refl

  with_admission-Kept :
      (d : DeadlineTracker) (n left status : ℕ) (body : String) (x : Admission) (g : Gateway)
      → Kept g (with_admission world request_id method route policy d n left status body x g).1
  unfolding with_admission
  with_admission-Kept d n left status body circuit_open_error g = λ a. refl
  with_admission-Kept d n left status body admitted g = with_selection-Kept d n left status body _ _

  attempt-Kept :
      (d : DeadlineTracker) (n left status : ℕ) (body : String) (g : Gateway)
      → Kept g (attempt world request_id method route policy d n left status body g).1
  unfolding attempt set_breaker
  attempt-Kept d n left status body g = with_admission-Kept d n left status body _ _

  follow-Kept :
      (again : ℕ → String → Gateway → Outcome × Gateway × List Attempt) (e : Ending) (g : Gateway)
      (sent : List Attempt)
      → ((status : ℕ) (body : String) (g : Gateway) → Kept g (again status body g).1)
      → Kept g (follow world request_id method route policy again e g sent).1
  unfolding follow
  follow-Kept again (returns r) g sent later = λ a. refl
  follow-Kept again raises g sent later = λ a. refl
  follow-Kept again (breaks status body) g sent later = λ a. refl
  follow-Kept again (retries status body) g sent later = later status body g

  loop-Kept :
      (d : DeadlineTracker) (left n status : ℕ) (body : String) (g : Gateway)
      → Kept g (loop world request_id method route policy d left n status body g).1
  unfolding loop
  loop-Kept d zero n status body g = λ a. refl
  loop-Kept d (suc left) n status body g =
      let r = attempt world request_id method route policy d (suc n) left status body g in
      λ a.
        follow-Kept _ r.0 r.1 r.2 (λ status body g. loop-Kept d left (suc n) status body g) a
        ∙ attempt-Kept d (suc n) left status body g a

  pub dispatch-Kept : (g : Gateway) → Kept g (dispatch world request_id method route policy g).1
  unfolding dispatch set_breaker
  dispatch-Kept g = loop-Kept _ policy.max_attempts 0 502 _ _
