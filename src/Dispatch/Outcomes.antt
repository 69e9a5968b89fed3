-- ===== src/Dispatch/Outcomes.antt =====
-- What the caller of a dispatch gets.
use mathlib.Core.List.{append_assoc}
use sentinel_distributed_api.Prelude.{
  ℕ, zero, suc, ◌≤◌, ◌<◌, ◌≡◌, ◌⊎◌, inl, inr, refl, ap, sym, ◌∙◌, subst, not, String, Bool, true,
  false, List, [], ◌∷◌, ◌++◌, arith, Dict, Bool-cases, if◌then◌else◌, ◌==◌,
}
use sentinel_distributed_api.Retry.{
  RetryPolicy, FailureKind, DeadlineTracker, remaining, is_retryable, has_budget_for,
  classify_http_status, kind_eq,
}
use sentinel_distributed_api.Router.{
  BackendInstance, RouteDefinition, Selection, chosen, no_healthy_backend_error, internal_error,
}
use sentinel_distributed_api.Breaker.{Admission, admitted, circuit_open_error}
use sentinel_distributed_api.Gateway.{
  World, Gateway, Attempt, Ending, returns, raises, breaks, retries, Outcome, finished, raised,
  Reply, responds, connect_error, timed_out, other_error, PipelineResult, response_result,
  error_result, answers, forwarding, budgets,
}
use sentinel_distributed_api.Dispatch.{
  after_failure, settle, proceed, with_selection, with_admission, attempt, follow, loop, dispatch,
}

answers_sound : (s : ℕ) → answers s ≡ true → (s < 500) ⊎ (600 ≤ s)
unfolding answers classify_http_status kind_eq
answers_sound s h = ground arith

module _ (world : World) (request_id method : String) (route : RouteDefinition)
    (policy : RetryPolicy) where
  -- The status and the body that a failure reports after a call: those of its response, if it had one.
  abbrev by_reply : Reply → ℕ × String → ℕ × String
  by_reply (responds s headers content) latest = (s, content)
  by_reply _ latest = latest

  -- The same after some calls: the latest response tells them, and `latest` if there was none.
  unfoldable pub reported : ℕ × String → List Attempt → ℕ × String
  reported latest [] = latest
  reported latest (a ∷ later) = reported (by_reply (world.reply a.number) latest) later

  -- The result is the response to the last of the calls, which is no server error.
  abbrev pub Relays : PipelineResult → List Attempt → Type 0
  Relays r sent =
      (earlier : List Attempt) × (a : Attempt) × (s : ℕ) × (headers : Dict String)
      × (content : String) × (sent ≡ earlier ++ a ∷ [])
      × (world.reply a.number ≡ responds s headers content)
      × ((s < 500) ⊎ (600 ≤ s))
      × (r ≡ response_result request_id s headers content)

  -- The open circuit, a service without a healthy instance, or calls that failed.
  abbrev Failed : ℕ × String → PipelineResult → List Attempt → Type 0
  Failed latest r sent =
      (r
        ≡ error_result 503 request_id
            "{\"error\":{\"code\":\"CIRCUIT_OPEN\",\"message\":\"Backend circuit is open\"}}"
            "circuit_breaker")
      ⊎ (r
          ≡ error_result 503 request_id "{\"error\":{\"code\":\"NO_HEALTHY_BACKEND\"}}"
              "backend_selection")
      ⊎ (let (status, body) = reported latest sent in
          r ≡ error_result status request_id body "proxy")

  abbrev pub Explained : ℕ × String → Outcome → List Attempt → Type 0
  Explained latest (finished r) sent = Relays r sent ⊎ Failed latest r sent
  Explained latest raised sent = Unit

  -- What the end of a round says of its calls.
  abbrev Explains : ℕ × String → Ending → List Attempt → Type 0
  Explains latest (returns r) sent = Relays r sent ⊎ Failed latest r sent
  Explains latest raises sent = Unit
  Explains latest (breaks status body) sent = (status, body) ≡ reported latest sent
  Explains latest (retries status body) sent = (status, body) ≡ reported latest sent

  if_Explains :
      (b : Bool) (latest : ℕ × String) (x y : Ending × Gateway) (sent : List Attempt)
      → Explains latest x.0 sent
      → Explains latest y.0 sent
      → let r : Ending × Gateway = if b then x else y in Explains latest r.0 sent
  if_Explains true latest x y sent hx hy = hx
  if_Explains false latest x y sent hx hy = hy

  slept-Explains :
      (cancelled : Bool) (latest : ℕ × String) (status : ℕ) (body : String) (sent : List Attempt)
      → (status, body) ≡ reported latest sent
      → Explains latest (if cancelled then raises else retries status body) sent
  slept-Explains true latest status body sent h = _
  slept-Explains false latest status body sent h = h

  after_failure-Explains :
      (d : DeadlineTracker) (n left : ℕ) (k : FailureKind) (status : ℕ) (body : String)
      (g : Gateway) (latest : ℕ × String) (sent : List Attempt)
      → (status, body) ≡ reported latest sent
      → Explains latest
          (after_failure world request_id method route policy d n left k status body g).0
          sent
  unfolding after_failure
  after_failure-Explains d n left k status body g latest sent h =
      if_Explains (not (is_retryable method k policy _)) latest _ _ sent h (
        if_Explains (left == 0) latest _ _ sent h (
          if_Explains (not (has_budget_for d _ _)) latest _ _ sent h
            (slept-Explains (world.cancelled n) latest status body sent h)))

  settle-Explains :
      (d : DeadlineTracker) (n left status : ℕ) (body : String) (r : Reply) (g : Gateway)
      (a : Attempt)
      → world.reply a.number ≡ r
      → Explains
          (status, body)
          (settle world request_id method route policy d n left status body r g).0
          (a ∷ [])
  unfolding settle reported
  settle-Explains d n left status body (responds s headers content) g a e =
      elim (Bool-cases (answers s)) [
        | inl h ↦ rw h (inl ([], a, s, headers, content, refl, e, answers_sound s h, refl))
        | inr h ↦
            rw h (after_failure-Explains d n left _ s content _ (status, body) (a ∷ []) (rw e refl))
      ]
  settle-Explains d n left status body connect_error g a e =
      after_failure-Explains d n left _ status body _ (status, body) (a ∷ []) (rw e refl)
  settle-Explains d n left status body timed_out g a e =
      after_failure-Explains d n left _ status body _ (status, body) (a ∷ []) (rw e refl)
  settle-Explains d n left status body other_error g a e = _

  proceed-Explains :
      (d : DeadlineTracker) (n left status : ℕ) (body : String) (i : BackendInstance) (g : Gateway)
      → let (e, g', sent) = proceed world request_id method route policy d n left status body i g in
        Explains (status, body) e sent
  unfolding proceed reported
  proceed-Explains d n left status body i g =
      elim (Bool-cases (remaining d (world.time n budgets) == 0)) [
        | inl h ↦ rw h refl
        | inr h ↦ rw h (
            settle-Explains d n left status body (world.reply n) (world.others n forwarding g) _
              refl)
      ]

  with_selection-Explains :
      (d : DeadlineTracker) (n left status : ℕ) (body : String) (s : Selection) (g : Gateway)
      → let (e, g', sent) =
          with_selection world request_id method route policy d n left status body s g in
        Explains (status, body) e sent
  unfolding with_selection
  with_selection-Explains d n left status body (chosen i) g =
      proceed-Explains d n left status body i g
  with_selection-Explains d n left status body no_healthy_backend_error g = inr (inr (inl refl))
  with_selection-Explains d n left status body internal_error g = _

  attempt-Explains :
      (d : DeadlineTracker) (n left status : ℕ) (body : String) (a : Admission) (g : Gateway)
      → let (e, g', sent) =
          with_admission world request_id method route policy d n left status body a g in
        Explains (status, body) e sent
  unfolding with_admission
  attempt-Explains d n left status body circuit_open_error g = inr (inl refl)
  attempt-Explains d n left status body admitted g =
      with_selection-Explains d n left status body _ _

  reported-append :
      (latest : ℕ × String) (sent later : List Attempt)
      → reported (reported latest sent) later ≡ reported latest (sent ++ later)
  unfolding reported
  reported-append latest [] later = refl
  reported-append latest (a ∷ sent) later =
      reported-append (by_reply (world.reply a.number) latest) sent later

  Explained-append :
      (latest : ℕ × String) (o : Outcome) (sent later : List Attempt)
      → Explained (reported latest sent) o later
      → Explained latest o (sent ++ later)
  Explained-append latest raised sent later h = _
  Explained-append latest (finished r) sent later
        (inl (earlier, a, s, headers, content, e, replied, good, same)) =
      inl (
        sent ++ earlier,
        a,
        s,
        headers,
        content,
        ap (λ l. sent ++ l) e ∙ sym (append_assoc sent earlier (a ∷ [])),
        replied,
        good,
        same,
      )
  Explained-append latest (finished r) sent later (inr (inl h)) = inr (inl h)
  Explained-append latest (finished r) sent later (inr (inr (inl h))) = inr (inr (inl h))
  Explained-append latest (finished r) sent later (inr (inr (inr h))) = inr (
      inr (
        inr (
          h
          ∙ ap (λ x. error_result x.0 request_id x.1 "proxy") (reported-append latest sent later))))

  follow-Explains :
      (again : ℕ → String → Gateway → Outcome × Gateway × List Attempt) (latest : ℕ × String)
      (e : Ending) (g : Gateway) (sent : List Attempt)
      → ((status : ℕ) (body : String) (g : Gateway)
          → let (o, g', later) = again status body g in Explained (status, body) o later)
      → Explains latest e sent
      → let (o, g', all) = follow world request_id method route policy again e g sent in
        Explained latest o all
  unfolding follow
  follow-Explains again latest (returns r) g sent later h = h
  follow-Explains again latest raises g sent later h = _
  follow-Explains again latest (breaks status body) g sent later h =
      inr (inr (inr (ap (λ x. error_result x.0 request_id x.1 "proxy") h)))
  follow-Explains again latest (retries status body) g sent later h =
      let (o, g', all) = again status body g in
      Explained-append latest o sent all (subst (λ x. Explained x o all) h (later status body g))

  loop-Explains :
      (d : DeadlineTracker) (left n status : ℕ) (body : String) (g : Gateway)
      → let (o, g', sent) = loop world request_id method route policy d left n status body g in
        Explained (status, body) o sent
  unfolding loop attempt reported
  loop-Explains d zero n status body g = inr (inr (inr refl))
  loop-Explains d (suc left) n status body g =
      follow-Explains _ (status, body) _ _ _
        (λ status body g. loop-Explains d left (suc n) status body g)
        (attempt-Explains d (suc n) left status body _ _)

  -- A result is either the response to the last call that was made, unchanged, whose status is no
  -- server error of 5xx; or it says that the circuit is open, or that no backend is healthy; or it
  -- fails in the stage `proxy`, with the status and the body of the latest response to a call, or as
  -- a bad gateway if no call had one.
  pub dispatch-Explained :
      (g : Gateway)
      → let (o, g', sent) = dispatch world request_id method route policy g in
        Explained (502, "{\"error\":{\"code\":\"BAD_GATEWAY\"}}") o sent
  unfolding dispatch
  dispatch-Explained g = loop-Explains _ policy.max_attempts 0 502 _ _
