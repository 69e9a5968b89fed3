-- ===== src/Retry/Classify.antt =====
-- How statuses are classified, and which failures are retried.
use sentinel_distributed_api.Prelude.{
  ℕ, ◌≤◌, ◌<◌, ◌≡◌, ◌≢◌, ◌↔◌, ◌⊎◌, String, Bool, true, false, arith,
}
use sentinel_distributed_api.Retry.{
  FailureKind, connection_error, timeout, http_502, http_503, http_504, http_4xx, http_other_5xx,
  success, RetryPolicy, default_retryable, in_kinds, is_idempotent, is_retryable,
  classify_http_status,
}

-- The range of statuses that a kind stands for.
abbrev pub Stands : FailureKind → ℕ → Type 0
Stands http_502 s = s ≡ 502
Stands http_503 s = s ≡ 503
Stands http_504 s = s ≡ 504
Stands http_4xx s = (400 ≤ s) × (s < 500)
Stands http_other_5xx s = (500 ≤ s) × (s < 600) × (s ≢ 502) × (s ≢ 503) × (s ≢ 504)
Stands success s = (s < 400) ⊎ (600 ≤ s)
Stands connection_error s = ⊥
Stands timeout s = ⊥

-- `classify_http_status` yields a kind exactly when the status lies in the range of the kind; the
-- two kinds for failures of the transport have no status.
pub classify_http_status_iff :
    (status : ℕ) (k : FailureKind) → (classify_http_status status ≡ k) ↔ Stands k status
unfolding classify_http_status
classify_http_status_iff status connection_error = ground arith
classify_http_status_iff status timeout = ground arith
classify_http_status_iff status http_502 = ground arith
classify_http_status_iff status http_503 = ground arith
classify_http_status_iff status http_504 = ground arith
classify_http_status_iff status http_4xx = ground arith
classify_http_status_iff status http_other_5xx = ground arith
classify_http_status_iff status success = ground arith

-- A failure is retried exactly when the circuit is not open, the policy lists the kind, and the
-- method is idempotent or the policy allows any method.
pub is_retryable_iff :
    (method : String) (k : FailureKind) (policy : RetryPolicy) (circuit_is_open : Bool)
    → (is_retryable method k policy circuit_is_open ≡ true) ↔ (
        (circuit_is_open ≡ false)
        × (in_kinds k policy.retryable_failures ≡ true)
        × ((is_idempotent method ≡ true) ⊎ (policy.allow_non_idempotent ≡ true)))
unfolding is_retryable
is_retryable_iff method k policy circuit_is_open = ground arith

-- Under the default list a status is retryable exactly when it is 502, 503 or 504: no 4xx, no
-- other 5xx and no success.
pub default_retryable_iff :
    (status : ℕ)
    → (in_kinds (classify_http_status status) default_retryable ≡ true)
      ↔ ((502 ≤ status) × (status ≤ 504))
unfolding classify_http_status in_kinds
default_retryable_iff status = ground arith

-- The test of the pipeline, `failure_kind == SUCCESS or status < 500`, holds exactly for the
-- statuses outside 500 to 599.
pub answers_iff :
    (status : ℕ)
    → ((classify_http_status status ≡ success) ⊎ (status < 500)) ↔ ((status < 500) ⊎ (600 ≤ status))
unfolding classify_http_status
answers_iff status = ground arith
