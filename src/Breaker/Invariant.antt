-- ===== src/Breaker/Invariant.antt =====
-- What holds of a breaker between two calls.
use sentinel_distributed_api.Prelude.{
  ℕ, ◌≤◌, ◌<◌, ◌≡◌, ◌≢◌, Bool, true, false, String, none, List, [], ◌∷◌, arith, length,
}
use sentinel_distributed_api.Breaker.{
  closed, opened, half_open, CircuitBreakerConfig, CircuitBreaker, Call, reads_state, asks,
  succeeds, fails, init, append_bounded, refresh, before_request, record_success, record_failure,
  step, run,
}
use sentinel_distributed_api.Breaker.Window.{length-append_bounded}

-- Under a configuration that allows a probe at all.
pub record IsValid (b : CircuitBreaker) : Type 0 where
  pub probes : 0 < b.config.half_open_max_requests
  pub window : length b.outcomes ≤ b.config.rolling_window_size
  pub closed_clean :
      b.state ≡ closed
      → (b.opened_at ≡ none) × (b.half_open_in_flight ≡ 0) × (b.half_open_successes ≡ 0)
  pub opened_dated :
      b.state ≡ opened
      → (b.opened_at ≢ none) × (b.half_open_in_flight ≡ 0) × (b.half_open_successes ≡ 0)
  pub half_open_bounded :
      b.state ≡ half_open
      → (b.opened_at ≢ none)
        × (b.half_open_in_flight ≤ b.config.half_open_max_requests)
        × (b.half_open_successes < b.config.half_open_max_requests)
  pub no_failures : b.half_open_failures ≡ 0

pub init-IsValid :
    (name : String) (config : CircuitBreakerConfig)
    → 0 < config.half_open_max_requests
    → IsValid (init name config)
unfolding init
init-IsValid name config h = ground arith

window_bounded :
    (b : CircuitBreaker) (success : Bool) (now : ℕ)
    → length (
        append_bounded b.config.rolling_window_size b.outcomes
          (record { success = success; at = now }))
      ≤ b.config.rolling_window_size
window_bounded b success now =
    length-append_bounded b.config.rolling_window_size b.outcomes
      (record { success = success; at = now })

-- Every call keeps the breaker well formed: the window within its size, an opening time exactly
-- when the circuit is not closed, and probes in flight and counted only while half open, within
-- `half_open_max_requests`.
pub step-IsValid : (b : CircuitBreaker) (c : Call) → IsValid b → IsValid (step b c)
unfolding step refresh before_request record_success record_failure
step-IsValid b (reads_state now) v = ground arith
step-IsValid b (asks now) v = ground arith
step-IsValid b (succeeds now) v = ground (arith, window_bounded b true now)
step-IsValid b (fails now later) v = ground (arith, window_bounded b false now)

pub run-IsValid : (b : CircuitBreaker) (cs : List Call) → IsValid b → IsValid (run b cs)
unfolding run
run-IsValid b [] v = v
run-IsValid b (c ∷ cs) v = run-IsValid (step b c) cs (step-IsValid b c v)

-- So a breaker that was created with room for a probe stays well formed after any calls.
pub run-init-IsValid :
    (name : String) (config : CircuitBreakerConfig) (cs : List Call)
    → 0 < config.half_open_max_requests
    → IsValid (run (init name config) cs)
run-init-IsValid name config cs h = run-IsValid _ cs (init-IsValid name config h)
