-- ===== src/Dispatch/Targets.antt =====
-- Which addresses a request is sent to.
use mathlib.Core.List.{Perm}
use sentinel_distributed_api.Prelude.{
  ℕ, zero, suc, ◌≡◌, inl, inr, refl, not, String, Bool, true, false, List, All, All-append,
  Bool-cases, if◌then◌else◌, ◌==◌, ltb, lookup,
}
use sentinel_distributed_api.Retry.{
  RetryPolicy, FailureKind, DeadlineTracker, remaining, is_retryable, has_budget_for,
  classify_http_status,
}
use sentinel_distributed_api.Router.{
  BackendInstance, RouteDefinition, Selection, chosen, no_healthy_backend_error, internal_error,
  or_empty,
}
use sentinel_distributed_api.Router.Targets.{Safe, is_up, select-Safe}
use sentinel_distributed_api.Breaker.{Admission, admitted, circuit_open_error}
use sentinel_distributed_api.Gateway.{
  World, Gateway, Attempt, Ending, returns, raises, breaks, retries, Outcome, Reply, responds,
  connect_error, timed_out, other_error, answers, forwarding, sleeping, Wait, set_breaker, budgets,
}
use sentinel_distributed_api.Dispatch.{
  after_failure, settle, proceed, with_selection, with_admission, attempt, follow, loop, dispatch,
  fail_breaker, pass_breaker,
}

module _ (host_of : String → String) (port_of : String → ℕ) (up : String → ℕ → Bool)
    (service : String) where
  -- The instances of the service, and its cycle, are safe to choose from.
  abbrev pub SafeFor : Gateway → Type 0
  SafeFor g =
      Safe host_of port_of up service (or_empty (lookup service g.backends_by_service)) g.selector

  abbrev pub UpAt : Attempt → Type 0
  UpAt a = up a.target.host a.target.port ≡ true

module _ (host_of : String → String) (port_of : String → ℕ) (up : String → ℕ → Bool) (world : World)
    (request_id method : String) (route : RouteDefinition) (policy : RetryPolicy)
    (shuffles : (l : List BackendInstance) → Perm (world.shuffle l) l)
    (others_keep : (n : ℕ) (w : Wait) (g : Gateway)
      → SafeFor host_of port_of up route.backend_service_id g
      → SafeFor host_of port_of up route.backend_service_id (world.others n w g)) where
  abbrev SafeNow : Gateway → Type 0
  SafeNow = SafeFor host_of port_of up route.backend_service_id

  abbrev Sent : List Attempt → Type 0
  Sent = All (UpAt host_of port_of up route.backend_service_id)

  abbrev SafeRound : Ending × Gateway × List Attempt → Type 0
  SafeRound r = SafeNow r.1 × Sent r.2

  if_Safe :
      (b : Bool) (x y : Ending × Gateway)
      → SafeNow x.1
      → SafeNow y.1
      → let r : Ending × Gateway = if b then x else y in SafeNow r.1
  if_Safe true x y hx hy = hx
  if_Safe false x y hx hy = hy

  after_failure-Safe :
      (d : DeadlineTracker) (n left : ℕ) (k : FailureKind) (status : ℕ) (body : String)
      (g : Gateway)
      → SafeNow g
      → SafeNow (after_failure world request_id method route policy d n left k status body g).1
  unfolding after_failure set_breaker
  after_failure-Safe d n left k status body g h =
      if_Safe (not (is_retryable method k policy _)) _ _ h (
        if_Safe (left == 0) _ _ h
          (if_Safe (not (has_budget_for d _ _)) _ _ h (others_keep n sleeping _ h)))

  settle-Safe :
      (d : DeadlineTracker) (n left status : ℕ) (body : String) (r : Reply) (g : Gateway)
      → SafeNow g
      → SafeNow (settle world request_id method route policy d n left status body r g).1
  unfolding settle fail_breaker pass_breaker set_breaker
  settle-Safe d n left status body (responds s headers content) g h =
      if_Safe (answers s) _ _ (passed (ltb s 500))
        (after_failure-Safe d n left (classify_http_status s) s content _ h)
    where
      passed :
          (b : Bool)
          → SafeNow (if b then pass_breaker world request_id method route policy n g else g)
      passed true = h
      passed false = h
  settle-Safe d n left status body connect_error g h = after_failure-Safe d n left _ status body _ h
  settle-Safe d n left status body timed_out g h = after_failure-Safe d n left _ status body _ h
  settle-Safe d n left status body other_error g h = h

  proceed-Safe :
      (d : DeadlineTracker) (n left status : ℕ) (body : String) (i : BackendInstance) (g : Gateway)
      → SafeNow g
      → is_up host_of port_of up i ≡ true
      → SafeRound (proceed world request_id method route policy d n left status body i g)
  unfolding proceed fail_breaker set_breaker
  proceed-Safe d n left status body i g h k =
      elim (Bool-cases (remaining d (world.time n budgets) == 0)) [
        | inl e ↦ rw e (h, _)
        | inr e ↦ rw e (
          settle-Safe d n left status body (world.reply n) _ (others_keep n forwarding g h),
          (k, _),
        )
      ]

  with_selection-Safe :
      (d : DeadlineTracker) (n left status : ℕ) (body : String) (s : Selection) (g : Gateway)
      → SafeNow g
      → ((i : BackendInstance) → s ≡ chosen i → is_up host_of port_of up i ≡ true)
      → SafeRound (with_selection world request_id method route policy d n left status body s g)
  unfolding with_selection fail_breaker set_breaker
  with_selection-Safe d n left status body (chosen i) g h k =
      proceed-Safe d n left status body i g h (k i refl)
  with_selection-Safe d n left status body no_healthy_backend_error g h k = (h, _)
  with_selection-Safe d n left status body internal_error g h k = (h, _)

  with_admission-Safe :
      (d : DeadlineTracker) (n left status : ℕ) (body : String) (a : Admission) (g : Gateway)
      → SafeNow g
      → SafeRound (with_admission world request_id method route policy d n left status body a g)
  unfolding with_admission
  with_admission-Safe d n left status body circuit_open_error g h = (h, _)
  with_admission-Safe d n left status body admitted g h =
      let (safe, k) =
        select-Safe host_of port_of up world.shuffle shuffles route.backend_service_id _ g.selector
          h in
      with_selection-Safe d n left status body _ _ safe k

  attempt-Safe :
      (d : DeadlineTracker) (n left status : ℕ) (body : String) (g : Gateway)
      → SafeNow g
      → SafeRound (attempt world request_id method route policy d n left status body g)
  unfolding attempt set_breaker
  attempt-Safe d n left status body g h = with_admission-Safe d n left status body _ _ h

  follow-Sent :
      (again : ℕ → String → Gateway → Outcome × Gateway × List Attempt) (e : Ending) (g : Gateway)
      (sent : List Attempt)
      → ((status : ℕ) (body : String) → Sent (again status body g).2)
      → Sent sent
      → Sent (follow world request_id method route policy again e g sent).2
  unfolding follow
  follow-Sent again (returns r) g sent later h = h
  follow-Sent again raises g sent later h = h
  follow-Sent again (breaks status body) g sent later h = h
  follow-Sent again (retries status body) g sent later h =
      All-append _ sent (again status body g).2 h (later status body)

  loop-Sent :
      (d : DeadlineTracker) (left n status : ℕ) (body : String) (g : Gateway)
      → SafeNow g
      → Sent (loop world request_id method route policy d left n status body g).2
  unfolding loop
  loop-Sent d zero n status body g h = _
  loop-Sent d (suc left) n status body g h =
      let (safe, sent) = attempt-Safe d (suc n) left status body g h in
      follow-Sent _ _ _ _ (λ status body. loop-Sent d left (suc n) status body _ safe) sent

  -- A request is sent only to addresses that are up: if the gateway's instances of the service, and
  -- the copies of them in the selector's cycle, are at the addresses of the table, if every instance
  -- that is HEALTHY is at an address that is up, and if others keep it so while the request waits,
  -- whatever else they do, then every call of `forward` goes to an address that is up. So an instance
  -- that is UNHEALTHY, DRAINING or UNKNOWN all the while is not called, not even from a cycle that was
  -- built while it was HEALTHY. (The shuffle permutes.)
  pub dispatch-Sent :
      (g : Gateway) → SafeNow g → Sent (dispatch world request_id method route policy g).2
  unfolding dispatch set_breaker
  dispatch-Sent g h = loop-Sent _ policy.max_attempts 0 502 _ _ h
