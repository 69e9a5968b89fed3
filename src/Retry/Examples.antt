-- ===== src/Retry/Examples.antt =====
-- The retry rules at concrete inputs: the unit tests, and the theorems applied.
use sentinel_distributed_api.Prelude.{◌≡◌, refl, true, false, ◌^◌, str_eq, upper}
use sentinel_distributed_api.Retry.{
  timeout, http_503, default_policy, in_kinds, is_idempotent, is_retryable, compute_backoff,
}

retries_get : is_retryable "get" timeout default_policy false ≡ true
unfolding is_retryable in_kinds is_idempotent str_eq upper
retries_get = refl

keeps_post : is_retryable "POST" http_503 default_policy false ≡ false
unfolding retries_get
keeps_post = refl

allows_post :
    is_retryable "POST" http_503 (record default_policy { allow_non_idempotent = true }) false
    ≡ true
unfolding retries_get
allows_post = refl

open_blocks : is_retryable "GET" timeout default_policy true ≡ false
unfolding is_retryable
open_blocks = refl

half_of_ceiling : compute_backoff 3 100 (2 ^ 52) ≡ 200_000
unfolding compute_backoff
half_of_ceiling = refl
