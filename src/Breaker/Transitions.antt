-- ===== src/Breaker/Transitions.antt =====
-- The state machine: which call moves the circuit from which state to which, and when it trips.
use sentinel_distributed_api.Prelude.{
  ℕ, ◌+◌, ◌*◌, ◌≤◌, ◌<◌, ◌≡◌, refl, String, false, some, List, [], ◌∷◌, arith, length,
}
use sentinel_distributed_api.Breaker.{
  CircuitState, closed, opened, half_open, Outcome, CircuitBreakerConfig, CircuitBreaker, Call,
  reads_state, asks, succeeds, fails, init, append_bounded, failures, refresh, before_request,
  record_success, record_failure, step, run,
}
use sentinel_distributed_api.Breaker.Window.{length-append_bounded, step-config}

-- The window of `b` with one more failure.
abbrev pub window_after_failure : ℕ → CircuitBreaker → List Outcome
window_after_failure now b =
    append_bounded b.config.rolling_window_size b.outcomes (record { success = false; at = now })

-- Enough outcomes, and a failure rate that reaches the threshold.
abbrev pub Trips : CircuitBreakerConfig → List Outcome → Type 0
Trips config os =
    (config.minimum_requests ≤ length os)
    × (config.failure_threshold.num * length os ≤ failures os * config.failure_threshold.den)

-- The open period of `b` is over at `now`.
abbrev pub Elapsed : CircuitBreaker → ℕ → Type 0
Elapsed b now = (since : ℕ) × (b.opened_at ≡ some since) × (since + b.config.open_duration ≤ now)

-- The edges of the diagram, with what each of them needs.
pub data Edge (b : CircuitBreaker) : Call → CircuitState → CircuitState → Type 0 where
  stay : {c : Call} {s : CircuitState} → Edge b c s s
  trip :
      {now later : ℕ}
      → Trips b.config (window_after_failure now b)
      → Edge b (fails now later) closed opened
  elapse_read : {now : ℕ} → Elapsed b now → Edge b (reads_state now) opened half_open
  elapse_ask : {now : ℕ} → Elapsed b now → Edge b (asks now) opened half_open
  relapse : {now later : ℕ} → Edge b (fails now later) half_open opened
  recover :
      {now : ℕ}
      → b.config.half_open_max_requests ≤ b.half_open_successes + 1
      → Edge b (succeeds now) half_open closed

-- Every call moves the circuit along an edge of the diagram of its documentation, or leaves its state
-- as it is. The window of a trip is the whole rolling one, of up to `rolling_window_size` outcomes.
pub step-Edge : (b : CircuitBreaker) (c : Call) → Edge b c b.state (step b c).state
unfolding step refresh before_request record_success record_failure
step-Edge b (reads_state now) = grind (arith, stay, elapse_read)
step-Edge b (asks now) = grind (arith, stay, elapse_ask)
step-Edge b (succeeds now) = grind (arith, stay, recover)
step-Edge b (fails now later) = grind (arith, stay, trip, relapse)

stays_closed :
    (b : CircuitBreaker) (c : Call)
    → b.config.rolling_window_size < b.config.minimum_requests
    → b.state ≡ closed
    → (step b c).state ≡ closed
unfolding step refresh before_request record_success record_failure
stays_closed b (reads_state now) small h = ground arith
stays_closed b (asks now) small h = ground arith
stays_closed b (succeeds now) small h = ground arith
stays_closed b (fails now later) small h = ground (
  arith,
  length-append_bounded b.config.rolling_window_size b.outcomes
      (record { success = false; at = now }),
)

run-closed :
    (b : CircuitBreaker) (cs : List Call)
    → b.config.rolling_window_size < b.config.minimum_requests
    → b.state ≡ closed
    → (run b cs).state ≡ closed
unfolding run
run-closed b [] small h = h
run-closed b (c ∷ cs) small h =
    run-closed (step b c) cs (rw (step-config b c) small) (stays_closed b c small h)

-- With a window smaller than `minimum_requests` the circuit never opens, whatever is recorded.
pub never_opens :
    (name : String) (config : CircuitBreakerConfig) (cs : List Call)
    → config.rolling_window_size < config.minimum_requests
    → (run (init name config) cs).state ≡ closed
unfolding init
never_opens name config cs small = run-closed _ cs small refl
