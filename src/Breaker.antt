-- ===== src/Breaker.antt =====
-- apps/gateway/circuitbreaker/breaker.py. A method returns the new breaker; each reading of
-- `self._clock()` is an argument, in ticks of one common unit. The failure threshold, a float in
-- the source, is a fraction, so that the comparison of rates is exact.
pub mod Window
pub mod Invariant
pub mod Transitions
pub mod Probes
pub mod Recovery
pub mod Failing
pub mod Down
pub mod Examples
use sentinel_distributed_api.Prelude.{
  ℕ, suc, ◌<◌, arith, ◌+◌, ◌-◌, ◌*◌, String, Bool, true, false, not, Option, none, some, List, [],
  ◌∷◌, ◌++◌, Ratio, leb, ltb, if◌then◌else◌, length, drop, count,
}

-- `CircuitState`; `open` is a reserved word here.
pub data CircuitState : Type 0 where
  closed opened half_open : CircuitState

-- A window of size 0 is left out: with it, and no minimum, the source divides by 0.
pub record CircuitBreakerConfig : Type 0 where
  pub failure_threshold : Ratio
  pub minimum_requests : ℕ
  pub open_duration : ℕ
  pub half_open_max_requests : ℕ
  pub rolling_window_size : ℕ
  pub has_window : 0 < rolling_window_size

-- Ticks of one microsecond: `open_duration_seconds = 10.0`.
abbrev pub default_config : CircuitBreakerConfig
default_config = record {
  failure_threshold = record { num = 1; den = 2 };
  minimum_requests = 20;
  open_duration = 10_000_000;
  half_open_max_requests = 3;
  rolling_window_size = 100;
  has_window = omega arith;
}

-- `_Outcome`.
pub record Outcome : Type 0 where
  pub success : Bool
  pub at : ℕ

pub record CircuitBreaker : Type 0 where
  pub name : String
  pub config : CircuitBreakerConfig
  pub state : CircuitState
  pub outcomes : List Outcome
  pub opened_at : Option ℕ
  pub half_open_in_flight : ℕ
  pub half_open_successes : ℕ
  pub half_open_failures : ℕ

unfoldable pub init : String → CircuitBreakerConfig → CircuitBreaker
init name config = record {
  name = name;
  config = config;
  state = closed;
  outcomes = [];
  opened_at = none;
  half_open_in_flight = 0;
  half_open_successes = 0;
  half_open_failures = 0;
}

-- `deque(maxlen=n).append(x)`: the oldest entries leave on the left.
unfoldable pub append_bounded {ℓ} : {A : Type ℓ} → ℕ → List A → A → List A
append_bounded n xs x = let ys = xs ++ x ∷ [] in drop (length ys - n) ys

transition_to_open : ℕ → CircuitBreaker → CircuitBreaker
transition_to_open now b = record b {
  state = opened;
  opened_at = some now;
  half_open_in_flight = 0;
  half_open_successes = 0;
  half_open_failures = 0;
}

transition_to_half_open : CircuitBreaker → CircuitBreaker
transition_to_half_open b = record b {
  state = half_open;
  half_open_in_flight = 0;
  half_open_successes = 0;
  half_open_failures = 0;
}

transition_to_closed : CircuitBreaker → CircuitBreaker
transition_to_closed b = record b {
  state = closed;
  opened_at = none;
  outcomes = [];
  half_open_in_flight = 0;
  half_open_successes = 0;
  half_open_failures = 0;
}

-- `elapsed >= open_duration_seconds`, for `elapsed = now - opened_at` of either sign.
abbrev pub open_elapsed : ℕ → CircuitBreakerConfig → ℕ → Bool
open_elapsed now config since = leb (since + config.open_duration) now

refresh_opened : ℕ → CircuitBreaker → Option ℕ → CircuitBreaker
unfolding transition_to_half_open
refresh_opened now b none = b
refresh_opened now b (some since) =
    if open_elapsed now b.config since then transition_to_half_open b else b

refresh_in : CircuitState → ℕ → CircuitBreaker → CircuitBreaker
unfolding refresh_opened
refresh_in closed now b = b
refresh_in opened now b = refresh_opened now b b.opened_at
refresh_in half_open now b = b

-- The property `state`: the breaker after the lazy transition, whose field `state` is its value.
unfoldable pub refresh : ℕ → CircuitBreaker → CircuitBreaker
unfolding refresh_in
refresh now b = refresh_in b.state now b

-- What `before_request` does: it returns, or it raises `CircuitOpenError`.
pub data Admission : Type 0 where
  admitted circuit_open_error : Admission

admit_in : CircuitState → CircuitBreaker → Admission × CircuitBreaker
admit_in closed b = (admitted, b)
admit_in opened b = (circuit_open_error, b)
admit_in half_open b =
    if leb b.config.half_open_max_requests b.half_open_in_flight
    then (circuit_open_error, b)
    else (admitted, record b { half_open_in_flight = b.half_open_in_flight + 1 })

unfoldable pub before_request : ℕ → CircuitBreaker → Admission × CircuitBreaker
unfolding refresh admit_in
before_request now b = let c = refresh now b in admit_in c.state c

record_outcome : Bool → ℕ → CircuitBreaker → CircuitBreaker
record_outcome success now b = record b {
  outcomes =
      append_bounded b.config.rolling_window_size b.outcomes
        (record { success = success; at = now });
}

probe_succeeded : CircuitBreaker → CircuitBreaker
unfolding transition_to_closed
probe_succeeded b =
    let c = record b {
      half_open_in_flight = b.half_open_in_flight - 1;
      half_open_successes = b.half_open_successes + 1;
    } in
    if leb b.config.half_open_max_requests (b.half_open_successes + 1)
    then transition_to_closed c
    else c

success_in : CircuitState → CircuitBreaker → CircuitBreaker
unfolding probe_succeeded
success_in half_open b = probe_succeeded b
success_in closed b = b
success_in opened b = b

unfoldable pub record_success : ℕ → CircuitBreaker → CircuitBreaker
unfolding record_outcome success_in
record_success now b = success_in b.state (record_outcome true now b)

abbrev pub failures : List Outcome → ℕ
failures = count λ o. not o.success

-- `failures / len >= failure_threshold`, multiplied out. The source divides by the length, which
-- is not 0 here unless the window size is 0.
abbrev pub rate_reached : CircuitBreakerConfig → List Outcome → Bool
rate_reached config os =
    leb (config.failure_threshold.num * length os) (failures os * config.failure_threshold.den)

maybe_open : ℕ → CircuitBreaker → CircuitBreaker
unfolding transition_to_open
maybe_open later b =
    if ltb (length b.outcomes) b.config.minimum_requests
    then b
    else if rate_reached b.config b.outcomes
    then transition_to_open later b
    else b

failure_in : CircuitState → ℕ → CircuitBreaker → CircuitBreaker
unfolding maybe_open transition_to_open
failure_in half_open later b = transition_to_open later (record b {
  half_open_in_flight = b.half_open_in_flight - 1;
  half_open_failures = b.half_open_failures + 1;
})
failure_in closed later b = maybe_open later b
failure_in opened later b = b

-- `later` is the second reading of the clock, made only if the circuit opens.
unfoldable pub record_failure : ℕ → ℕ → CircuitBreaker → CircuitBreaker
unfolding record_outcome failure_in
record_failure now later b = failure_in b.state later (record_outcome false now b)

-- A call of the breaker by its user, with its readings of the clock.
pub data Call : Type 0 where
  reads_state asks succeeds : (now : ℕ) → Call
  fails : (now later : ℕ) → Call

pub step : CircuitBreaker → Call → CircuitBreaker
unfolding refresh before_request record_success record_failure
step b (reads_state now) = refresh now b
step b (asks now) = (before_request now b).1
step b (succeeds now) = record_success now b
step b (fails now later) = record_failure now later b

pub run : CircuitBreaker → List Call → CircuitBreaker
run b [] = b
run b (c ∷ cs) = run (step b c) cs
