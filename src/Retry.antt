-- ===== src/Retry.antt =====
-- apps/gateway/retry/policy.py. A duration is a number of microseconds: `x_ms` of the source is
-- `1000 * x_ms` here, and a clock reading in seconds is the same reading in microseconds.
pub mod Backoff
pub mod Classify
pub mod Deadline
pub mod Examples
use sentinel_distributed_api.Prelude.{
  ℕ, zero, suc, ◌+◌, ◌-◌, ◌*◌, ◌/◌, ◌^◌, String, Bool, true, false, not, ◌&&◌, List, [], ◌∷◌, leb,
  ltb, ◌==◌, if◌then◌else◌, any, str_eq, upper,
}

pub data FailureKind : Type 0 where
  connection_error timeout http_502 http_503 http_504 http_4xx http_other_5xx success : FailureKind

unfoldable pub kind_eq : FailureKind → FailureKind → Bool
kind_eq connection_error connection_error = true
kind_eq timeout timeout = true
kind_eq http_502 http_502 = true
kind_eq http_503 http_503 = true
kind_eq http_504 http_504 = true
kind_eq http_4xx http_4xx = true
kind_eq http_other_5xx http_other_5xx = true
kind_eq success success = true
kind_eq _ _ = false

-- `_DEFAULT_RETRYABLE`.
abbrev pub default_retryable : List FailureKind
default_retryable = connection_error ∷ timeout ∷ http_502 ∷ http_503 ∷ http_504 ∷ []

-- `_IDEMPOTENT_METHODS`.
abbrev pub idempotent_methods : List String
idempotent_methods = "GET" ∷ "HEAD" ∷ "PUT" ∷ "DELETE" ∷ "OPTIONS" ∷ []

pub record RetryPolicy : Type 0 where
  pub max_attempts : ℕ
  pub base_backoff_ms : ℕ
  pub total_deadline_ms : ℕ
  pub retryable_failures : List FailureKind
  pub allow_non_idempotent : Bool

abbrev pub default_policy : RetryPolicy
default_policy = record {
  max_attempts = 2;
  base_backoff_ms = 100;
  total_deadline_ms = 2000;
  retryable_failures = default_retryable;
  allow_non_idempotent = false;
}

unfoldable pub in_kinds : FailureKind → List FailureKind → Bool
unfolding kind_eq
in_kinds k = any (kind_eq k)

unfoldable pub is_idempotent : String → Bool
is_idempotent method = any (str_eq (upper method)) idempotent_methods

unfoldable pub is_retryable : String → FailureKind → RetryPolicy → Bool → Bool
is_retryable method failure_kind policy circuit_is_open =
    if circuit_is_open
    then false
    else if not (in_kinds failure_kind policy.retryable_failures)
    then false
    else if not (is_idempotent method) && not policy.allow_non_idempotent
    then false
    else true

-- `base_backoff_ms * (2 ** (attempt - 1))`, for the attempts 1, 2, ... of the caller.
unfoldable pub backoff_ceiling_ms : ℕ → ℕ → ℕ
backoff_ceiling_ms attempt base_backoff_ms = base_backoff_ms * 2 ^ (attempt - 1)

-- The resolution of `random.random()`, which draws `draw / 2 ** 53` for some `draw < 2 ** 53`.
abbrev pub draws : ℕ
draws = 2 ^ 53

-- `compute_backoff_ms`, in microseconds: `random.uniform(0, ceiling)` at a given draw, rounded down.
unfoldable pub compute_backoff : ℕ → ℕ → ℕ → ℕ
unfolding backoff_ceiling_ms
compute_backoff attempt base_backoff_ms draw =
    1000 * backoff_ceiling_ms attempt base_backoff_ms * draw / draws

pub record DeadlineTracker : Type 0 where
  pub start : ℕ
  pub total_deadline : ℕ

-- `DeadlineTracker(total_deadline_ms)`, at its reading of the clock.
unfoldable pub start_deadline : ℕ → ℕ → DeadlineTracker
start_deadline total_deadline_ms now = record {
  start = now;
  total_deadline = 1000 * total_deadline_ms;
}

-- `remaining_seconds`: `max(0.0, total - (now - start))`, the difference of either sign.
unfoldable pub remaining : DeadlineTracker → ℕ → ℕ
remaining d now = d.total_deadline + d.start - now

unfoldable pub has_budget_for : DeadlineTracker → ℕ → ℕ → Bool
unfolding remaining
has_budget_for d planned_backoff now = ltb planned_backoff (remaining d now)

unfoldable pub classify_http_status : ℕ → FailureKind
classify_http_status status_code =
    if status_code == 502
    then http_502
    else if status_code == 503
    then http_503
    else if status_code == 504
    then http_504
    else if leb 400 status_code && ltb status_code 500
    then http_4xx
    else if leb 500 status_code && ltb status_code 600
    then http_other_5xx
    else success
