-- ===== src/Breaker/Window.antt =====
-- The deque of outcomes is the latest part of what was recorded since the circuit last closed.
use mathlib.Core.List.{append-nil}
use sentinel_distributed_api.Prelude.{
  ℕ, zero, suc, ◌-◌, ◌≤◌, ◌≡◌, refl, Bool, true, false, ◌&&◌, List, [], ◌∷◌, ◌++◌, String, arith,
  if◌then◌else◌, length, drop, length-append, length-drop, drop-append, drop-drop,
}
use sentinel_distributed_api.Breaker.{
  CircuitBreakerConfig, init, CircuitState, closed, half_open, Outcome, CircuitBreaker, Call,
  reads_state, asks, succeeds, fails, append_bounded, refresh, before_request, record_success,
  record_failure, step, run,
}

module _ {ℓ} {A : Type ℓ} where
  abbrev pub latest : ℕ → List A → List A
  latest n xs = drop (length xs - n) xs

  pub length-latest : (n : ℕ) (xs : List A) → length (latest n xs) ≤ n
  length-latest n xs = omega (arith, length-drop (length xs - n) xs)

  pub length-append_bounded : (n : ℕ) (xs : List A) (x : A) → length (append_bounded n xs x) ≤ n
  unfolding append_bounded
  length-append_bounded n xs x = length-latest n (xs ++ x ∷ [])

  -- Appending to the deque keeps the latest part of the longer history.
  pub append_bounded-latest :
      (n : ℕ) (h : List A) (x : A) → append_bounded n (latest n h) x ≡ latest n (h ++ x ∷ [])
  unfolding append_bounded
  append_bounded-latest n h x = rw (← drop-append (length h - n) h (x ∷ []) (omega arith)) (
      drop-drop _ (length h - n) _ (h ++ x ∷ [])
        (omega (arith, length-append h (x ∷ []), length-drop (length h - n) (h ++ x ∷ []))))

abbrev pub recorded : Call → List Outcome
recorded (reads_state now) = []
recorded (asks now) = []
recorded (succeeds now) = record { success = true; at = now } ∷ []
recorded (fails now later) = record { success = false; at = now } ∷ []

abbrev is_half_open : CircuitState → Bool
is_half_open half_open = true
is_half_open _ = false

abbrev is_closed : CircuitState → Bool
is_closed closed = true
is_closed _ = false

-- The call closes the circuit, and so clears the window.
abbrev pub closes : CircuitBreaker → Call → Bool
closes b c = is_half_open b.state && is_closed (step b c).state

-- What was recorded since the circuit last closed, after `h`.
pub history : List Outcome → CircuitBreaker → List Call → List Outcome
history h b [] = h
history h b (c ∷ cs) = history (if closes b c then [] else h ++ recorded c) (step b c) cs

pub step-config : (b : CircuitBreaker) (c : Call) → (step b c).config ≡ b.config
unfolding step refresh before_request record_success record_failure
step-config b (reads_state now) = ground arith
step-config b (asks now) = ground arith
step-config b (succeeds now) = ground arith
step-config b (fails now later) = ground arith

pushed :
    (success : Bool) (b : CircuitBreaker) (h : List Outcome) (now : ℕ)
    → b.outcomes ≡ latest b.config.rolling_window_size h
    → append_bounded b.config.rolling_window_size b.outcomes
        (record { success = success; at = now })
      ≡ latest b.config.rolling_window_size (h ++ record { success = success; at = now } ∷ [])
pushed success b h now e = rw e (append_bounded-latest b.config.rolling_window_size h _)

step-latest :
    (b : CircuitBreaker) (c : Call) (h : List Outcome)
    → b.outcomes ≡ latest b.config.rolling_window_size h
    → (step b c).outcomes
      ≡ latest b.config.rolling_window_size (if closes b c then [] else h ++ recorded c)
unfolding step refresh before_request record_success record_failure
step-latest b (reads_state now) h e = ground (arith, append-nil h)
step-latest b (asks now) h e = ground (arith, append-nil h)
step-latest b (succeeds now) h e = ground (arith, pushed true b h now e)
step-latest b (fails now later) h e = ground (arith, pushed false b h now e)

run-latest :
    (n : ℕ) (b : CircuitBreaker) (cs : List Call) (h : List Outcome)
    → b.config.rolling_window_size ≡ n
    → b.outcomes ≡ latest n h
    → (run b cs).outcomes ≡ latest n (history h b cs)
unfolding run history
run-latest n b [] h w e = e
run-latest n b (c ∷ cs) h w e =
    run-latest n (step b c) cs _ (cc (step-config b c)) (rw (← w) (step-latest b c h (rw w e)))

-- After any calls on a fresh breaker, the window holds the latest `rolling_window_size` outcomes of
-- all that were recorded since the circuit last closed (since the start, if it never did).
pub outcomes-run :
    (name : String) (config : CircuitBreakerConfig) (cs : List Call)
    → (run (init name config) cs).outcomes
      ≡ latest config.rolling_window_size (history [] (init name config) cs)
unfolding init
outcomes-run name config cs =
    run-latest config.rolling_window_size _ cs [] refl (drop-nil (0 - config.rolling_window_size))
  where
    drop-nil : (n : ℕ) → [] ≡ drop {A = Outcome} n []
    drop-nil zero = refl
    drop-nil (suc n) = refl
