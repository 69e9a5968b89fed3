-- ===== src/Breaker/Failing.antt =====
-- A circuit that has recorded nothing but failures.
use sentinel_distributed_api.Prelude.{
  ℕ, suc, ◌-◌, ◌≤◌, ◌<◌, ◌≡◌, refl, ap, String, false, not, List, [], ◌∷◌, ◌++◌, arith, length,
  some, drop, length-append, count-append,
}
use sentinel_distributed_api.Breaker.{
  CircuitBreaker, closed, opened, Outcome, default_config, init, append_bounded, record_failure,
  failures, before_request, admitted,
}

-- A closed circuit of the default configuration with `k` outcomes in its window, all failures.
pub record Failing (k : ℕ) (b : CircuitBreaker) : Type 0 where
  pub config : b.config ≡ default_config
  pub state : b.state ≡ closed
  pub size : length b.outcomes ≡ k
  pub failed : failures b.outcomes ≡ k

pub init-Failing : (name : String) → Failing 0 (init name default_config)
unfolding init
init-Failing name = record { config = refl; state = refl; size = refl; failed = refl }

pub closed_admits :
    (now : ℕ) (b : CircuitBreaker) → b.state ≡ closed → before_request now b ≡ (admitted, b)
unfolding before_request
closed_admits now b h = ground (arith, h)

append_bounded_small {ℓ} :
    {A : Type ℓ} (n : ℕ) (xs : List A) (x : A)
    → length xs < n
    → append_bounded n xs x ≡ xs ++ x ∷ []
unfolding append_bounded
append_bounded_small n xs x h =
    let e : length (xs ++ x ∷ []) - n ≡ 0 = omega (arith, length-append xs (x ∷ [])) in
    ap (λ k. drop k (xs ++ x ∷ [])) e

-- The window after one more failure.
grown :
    (k now : ℕ) (b : CircuitBreaker)
    → Failing k b
    → suc k ≤ 20
    → let os =
        append_bounded b.config.rolling_window_size b.outcomes
          (record { success = false; at = now }) in
      (length os ≡ suc k) × (failures os ≡ suc k)
grown k now b f few =
    let o : Outcome = record { success = false; at = now } in
    let room : b.config.rolling_window_size ≡ 100 = ap (λ c. c.rolling_window_size) f.config in
    rw
      (append_bounded_small b.config.rolling_window_size b.outcomes o
        (omega (arith, f.size, few, room)))
      (
        omega (arith, length-append b.outcomes (o ∷ []), f.size),
        omega (arith, count-append (λ (p : Outcome). not p.success) b.outcomes (o ∷ []), f.failed),
      )

pub record_failure-Failing :
    (k now later : ℕ) (b : CircuitBreaker)
    → Failing k b
    → suc k < 20
    → Failing (suc k) (record_failure now later b)
unfolding record_failure
record_failure-Failing k now later b f few =
    let (size, failed) = grown k now b f (omega arith) in
    let minimum : b.config.minimum_requests ≡ 20 = ap (λ c. c.minimum_requests) f.config in
    record {
      config = ground (arith, f.config, f.state, minimum, size, few);
      state = ground (arith, f.state, minimum, size, few);
      size = ground (arith, f.state, minimum, size, few);
      failed = ground (arith, f.state, minimum, size, failed, few);
    }

pub record_failure_last :
    (k now later : ℕ) (b : CircuitBreaker)
    → Failing k b
    → suc k ≡ 20
    → (record_failure now later b).state ≡ opened
unfolding record_failure
record_failure_last k now later b f last =
    let (size, failed) = grown k now b f (omega arith) in
    let minimum : b.config.minimum_requests ≡ 20 = ap (λ c. c.minimum_requests) f.config in
    let num : b.config.failure_threshold.num ≡ 1 = ap (λ c. c.failure_threshold.num) f.config in
    let den : b.config.failure_threshold.den ≡ 2 = ap (λ c. c.failure_threshold.den) f.config in
    ground (arith, f.state, minimum, num, den, size, failed, last)

pub record_failure_last_at :
    (k now later : ℕ) (b : CircuitBreaker)
    → Failing k b
    → suc k ≡ 20
    → ((record_failure now later b).opened_at ≡ some later)
      × ((record_failure now later b).config ≡ default_config)
unfolding record_failure
record_failure_last_at k now later b f last =
    let (size, failed) = grown k now b f (omega arith) in
    let minimum : b.config.minimum_requests ≡ 20 = ap (λ c. c.minimum_requests) f.config in
    let num : b.config.failure_threshold.num ≡ 1 = ap (λ c. c.failure_threshold.num) f.config in
    let den : b.config.failure_threshold.den ≡ 2 = ap (λ c. c.failure_threshold.den) f.config in
    (
      ground (arith, f.state, minimum, num, den, size, failed, last),
      ground (arith, f.config, f.state, minimum, num, den, size, failed, last),
    )
