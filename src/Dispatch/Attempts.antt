-- ===== src/Dispatch/Attempts.antt =====
-- How many calls of `forward` a request makes, and what each of them is given.
use sentinel_distributed_api.Prelude.{
  ℕ, zero, suc, ◌+◌, ◌*◌, ◌≤◌, ◌≡◌, refl, String, Bool, true, false, List, arith, length,
  length-append, All, All-append, rstrip_star,
}
use sentinel_distributed_api.Retry.{
  RetryPolicy, FailureKind, classify_http_status, is_idempotent, is_retryable, DeadlineTracker,
  start_deadline, remaining,
}
use sentinel_distributed_api.Router.{
  BackendInstance, RouteDefinition, Selection, chosen, no_healthy_backend_error, internal_error,
}
use sentinel_distributed_api.Breaker.{Admission, admitted, circuit_open_error}
use sentinel_distributed_api.Gateway.{
  World, Gateway, Attempt, Ending, returns, raises, breaks, retries, Outcome, Reply, responds,
  connect_error, timed_out, other_error, forwarding,
}
use sentinel_distributed_api.Dispatch.{
  after_failure, settle, proceed, with_selection, with_admission, attempt, follow, loop, dispatch,
  fail_breaker,
}

module _ (world : World) (request_id method : String) (route : RouteDefinition)
    (policy : RetryPolicy) where
  abbrev Round : Type 0
  Round = Ending × Gateway × List Attempt

  -- What a call of `forward` is given: time left, within the deadline and the route's limit, and
  -- the path of the route.
  abbrev pub IsBounded : DeadlineTracker → Attempt → Type 0
  IsBounded d a =
      (a.per_attempt_timeout ≤ 1000 * route.timeout_ms)
      × (a.at + a.per_attempt_timeout ≤ d.start + d.total_deadline)
      × (a.target.path ≡ rstrip_star route.path_pattern)

  -- A round calls `forward` at most once.
  abbrev Once : DeadlineTracker → Round → Type 0
  Once d r = (length r.2 ≤ 1) × All (IsBounded d) r.2

  proceed-Once :
      (d : DeadlineTracker) (n left status : ℕ) (body : String) (i : BackendInstance) (g : Gateway)
      → Once d (proceed world request_id method route policy d n left status body i g)
  unfolding proceed remaining
  proceed-Once d n left status body i g = ground arith

  with_selection-Once :
      (d : DeadlineTracker) (n left status : ℕ) (body : String) (s : Selection) (g : Gateway)
      → Once d (with_selection world request_id method route policy d n left status body s g)
  unfolding with_selection
  with_selection-Once d n left status body (chosen i) g = proceed-Once d n left status body i g
  with_selection-Once d n left status body no_healthy_backend_error g = (omega arith, _)
  with_selection-Once d n left status body internal_error g = (omega arith, _)

  with_admission-Once :
      (d : DeadlineTracker) (n left status : ℕ) (body : String) (a : Admission) (g : Gateway)
      → Once d (with_admission world request_id method route policy d n left status body a g)
  unfolding with_admission
  with_admission-Once d n left status body circuit_open_error g = (omega arith, _)
  with_admission-Once d n left status body admitted g = with_selection-Once d n left status body _ _

  attempt-Once :
      (d : DeadlineTracker) (n left status : ℕ) (body : String) (g : Gateway)
      → Once d (attempt world request_id method route policy d n left status body g)
  unfolding attempt
  attempt-Once d n left status body g = with_admission-Once d n left status body _ _

  -- What the loop sends: at most `left` calls.
  abbrev pub Sends : DeadlineTracker → ℕ → Outcome × Gateway × List Attempt → Type 0
  Sends d left r = (length r.2 ≤ left) × All (IsBounded d) r.2

  follow-Sends :
      (d : DeadlineTracker) (left : ℕ)
      (again : ℕ → String → Gateway → Outcome × Gateway × List Attempt) (e : Ending) (g : Gateway)
      (sent : List Attempt)
      → ((status : ℕ) (body : String) (g : Gateway) → Sends d left (again status body g))
      → Once d (e, g, sent)
      → Sends d (suc left) (follow world request_id method route policy again e g sent)
  unfolding follow
  follow-Sends d left again (returns r) g sent later now = (omega (arith, now.0), now.1)
  follow-Sends d left again raises g sent later now = (omega (arith, now.0), now.1)
  follow-Sends d left again (breaks status body) g sent later now = (omega (arith, now.0), now.1)
  follow-Sends d left again (retries status body) g sent later now =
      let rest = again status body g in
      (
        omega (arith, now.0, (later status body g).0, length-append sent rest.2),
        All-append (IsBounded d) sent rest.2 now.1 (later status body g).1,
      )

  loop-Sends :
      (d : DeadlineTracker) (left n status : ℕ) (body : String) (g : Gateway)
      → Sends d left (loop world request_id method route policy d left n status body g)
  unfolding loop
  loop-Sends d zero n status body g = (omega arith, _)
  loop-Sends d (suc left) n status body g =
      follow-Sends d left _ _ _ _ (λ status body g. loop-Sends d left (suc n) status body g)
        (attempt-Once d (suc n) left status body g)

  -- A request calls a backend at most `max_attempts` times, each time with a time limit that ends
  -- by the deadline and is at most the route's, and on the route's path without its stars.
  pub dispatch-Sends :
      (g : Gateway)
      → Sends
          (start_deadline policy.total_deadline_ms world.start)
          policy.max_attempts
          (dispatch world request_id method route policy g)
  unfolding dispatch
  dispatch-Sends g = loop-Sends _ policy.max_attempts 0 502 _ _

module _ (world : World) (request_id method : String) (route : RouteDefinition)
    (policy : RetryPolicy) (unsafe : is_idempotent method ≡ false)
    (forbidden : policy.allow_non_idempotent ≡ false) where
  abbrev retrying : Ending → Bool
  retrying (retries status body) = true
  retrying _ = false

  not_retried : (k : FailureKind) (c : Bool) → is_retryable method k policy c ≡ false
  unfolding is_retryable
  not_retried k c = ground arith

  after_failure_ends :
      (d : DeadlineTracker) (n left : ℕ) (k : FailureKind) (status : ℕ) (body : String)
      (g : Gateway)
      → retrying (after_failure world request_id method route policy d n left k status body g).0
        ≡ false
  unfolding after_failure
  after_failure_ends d n left k status body g = rw (not_retried k _) refl

  settle_ends :
      (d : DeadlineTracker) (n left status : ℕ) (body : String) (r : Reply) (g : Gateway)
      → retrying (settle world request_id method route policy d n left status body r g).0 ≡ false
  unfolding settle
  settle_ends d n left status body (responds s headers content) g = ground (
    arith,
    after_failure_ends d n left (classify_http_status s) s content
        (fail_breaker world request_id method route policy n g),
  )
  settle_ends d n left status body connect_error g = after_failure_ends d n left _ status body _
  settle_ends d n left status body timed_out g = after_failure_ends d n left _ status body _
  settle_ends d n left status body other_error g = refl

  proceed_ends :
      (d : DeadlineTracker) (n left status : ℕ) (body : String) (i : BackendInstance) (g : Gateway)
      → retrying (proceed world request_id method route policy d n left status body i g).0 ≡ false
  unfolding proceed
  proceed_ends d n left status body i g =
      ground (arith, settle_ends d n left status body (world.reply n) (world.others n forwarding g))

  with_selection_ends :
      (d : DeadlineTracker) (n left status : ℕ) (body : String) (s : Selection) (g : Gateway)
      → retrying (with_selection world request_id method route policy d n left status body s g).0
        ≡ false
  unfolding with_selection
  with_selection_ends d n left status body (chosen i) g = proceed_ends d n left status body i g
  with_selection_ends d n left status body no_healthy_backend_error g = refl
  with_selection_ends d n left status body internal_error g = refl

  with_admission_ends :
      (d : DeadlineTracker) (n left status : ℕ) (body : String) (a : Admission) (g : Gateway)
      → retrying (with_admission world request_id method route policy d n left status body a g).0
        ≡ false
  unfolding with_admission
  with_admission_ends d n left status body circuit_open_error g = refl
  with_admission_ends d n left status body admitted g = with_selection_ends d n left status body _ _

  attempt_ends :
      (d : DeadlineTracker) (n left status : ℕ) (body : String) (g : Gateway)
      → retrying (attempt world request_id method route policy d n left status body g).0 ≡ false
  unfolding attempt
  attempt_ends d n left status body g = with_admission_ends d n left status body _ _

  follow_ends :
      (again : ℕ → String → Gateway → Outcome × Gateway × List Attempt) (e : Ending) (g : Gateway)
      (sent : List Attempt)
      → retrying e ≡ false
      → (follow world request_id method route policy again e g sent).2 ≡ sent
  unfolding follow
  follow_ends again (returns r) g sent h = refl
  follow_ends again raises g sent h = refl
  follow_ends again (breaks status body) g sent h = refl
  follow_ends again (retries status body) g sent h = absurd (ground arith)

  loop_once :
      (d : DeadlineTracker) (left n status : ℕ) (body : String) (g : Gateway)
      → length (loop world request_id method route policy d left n status body g).2 ≤ 1
  unfolding loop
  loop_once d zero n status body g = omega arith
  loop_once d (suc left) n status body g =
      rw (follow_ends _ _ _ _ (attempt_ends d (suc n) left status body g))
        ((attempt-Once world request_id method route policy d (suc n) left status body g).0)

  -- A method that is not idempotent, under a policy that does not allow its retry, is sent to a
  -- backend at most once, whatever the failures.
  pub dispatch_once : (g : Gateway) → length (dispatch world request_id method route policy g).2 ≤ 1
  unfolding dispatch
  dispatch_once g = loop_once _ policy.max_attempts 0 502 _ _
