-- ===== src/Breaker/Examples.antt =====
-- Breakers at concrete inputs: runs of the unit tests, and the theorems applied.
use sentinel_distributed_api.Prelude.{◌≡◌, refl, some, [], ◌∷◌, arith, length}
use sentinel_distributed_api.Breaker.{
  closed, opened, half_open, CircuitBreakerConfig, CircuitBreaker, asks, succeeds, fails,
  circuit_open_error, init, refresh, before_request, record_success, record_failure, append_bounded,
  step, run, default_config,
}
use sentinel_distributed_api.Breaker.Window.{latest, history}
use sentinel_distributed_api.Breaker.Transitions.{Edge, step-Edge}
use sentinel_distributed_api.Breaker.Window.{outcomes-run}
use sentinel_distributed_api.Breaker.Probes.{ask_all, ask_all_due}
use sentinel_distributed_api.Breaker.Recovery.{rounds, LetIn, recovers, lost_probes_block}

abbrev config : CircuitBreakerConfig
config = record default_config {
  minimum_requests = 2;
  open_duration = 10;
  rolling_window_size = 3;
  has_window = omega arith;
}

abbrev fresh : CircuitBreaker
unfolding init
fresh = init "users" config

-- Opened at time 2 by two failures.
abbrev tripped : CircuitBreaker
unfolding run step init record_failure append_bounded
tripped = run fresh (fails 1 1 ∷ fails 2 2 ∷ [])

tripped_opened : (tripped.state ≡ opened) × (tripped.opened_at ≡ some 2)
unfolding tripped
tripped_opened = (refl, refl)

below_threshold : (run fresh (succeeds 1 ∷ succeeds 2 ∷ fails 3 3 ∷ [])).state ≡ closed
unfolding tripped record_success
below_threshold = refl

window_rolls :
    length (run fresh (succeeds 1 ∷ succeeds 2 ∷ succeeds 3 ∷ succeeds 4 ∷ [])).outcomes ≡ 3
unfolding tripped record_success
window_rolls = refl

half_open_after : (refresh 12 tripped).state ≡ half_open
unfolding tripped refresh
half_open_after = refl

outcomes-run_example :
    (run (init "users" config) (fails 1 1 ∷ [])).outcomes
    ≡ latest 3 (history [] (init "users" config) (fails 1 1 ∷ []))
outcomes-run_example = outcomes-run "users" config (fails 1 1 ∷ [])

step-Edge_example : Edge tripped (asks 12) opened (step tripped (asks 12)).state
unfolding tripped
step-Edge_example = step-Edge tripped (asks 12)

ask_all_due_example : (ask_all tripped (12 ∷ 12 ∷ 13 ∷ 14 ∷ 15 ∷ [])).0 ≡ 3
unfolding tripped
ask_all_due_example =
    (ask_all_due 2 12 (12 ∷ 13 ∷ 14 ∷ 15 ∷ []) tripped (refl, refl) (omega arith)).0

recovers_example :
    (LetIn tripped ((12, 13) ∷ (12, 20) ∷ (14, 15) ∷ []))
    × ((run tripped (rounds ((12, 13) ∷ (12, 20) ∷ (14, 15) ∷ []))).state ≡ closed)
    × ((run tripped (rounds ((12, 13) ∷ (12, 20) ∷ (14, 15) ∷ []))).outcomes ≡ [])
unfolding tripped
recovers_example =
    recovers 2 12 13 tripped ((12, 20) ∷ (14, 15) ∷ []) (refl, refl) (omega arith) (omega arith)

lost_probes_block_example :
    (before_request 1_000_000 (run (ask_all tripped (12 ∷ 12 ∷ 12 ∷ [])).1 (asks 90 ∷ []))).0
    ≡ circuit_open_error
unfolding tripped
lost_probes_block_example =
    lost_probes_block 2 12 1_000_000 (12 ∷ 12 ∷ []) tripped (asks 90 ∷ []) (refl, refl)
      (omega arith) (omega arith) (omega arith)
