-- ===== src/Entry/Rate/Bound.antt =====
-- The bound on the requests of one client, from what the rounding and the expiry of its bucket can
-- grant.
use sentinel_distributed_api.Prelude.{ℕ, ◌+◌, ◌*◌, ◌≤◌, ◌<◌, ◌≡◌, String, Option, some}
use sentinel_distributed_api.RateLimit.Number.{bits}
use sentinel_distributed_api.RateLimit.Rounding.{billion}
use sentinel_distributed_api.RateLimit.{
  Redis, fail_closed, TokenBucketPolicy, BucketState, or_full, refilled,
}
use sentinel_distributed_api.Settings.{Settings}
use sentinel_distributed_api.Entry.{rate_limit_policy, failure_mode_of}

module _ (redis : Redis) (skew : ℕ) (key : String) where
  open redis use {lua, Store, hmget, pttl, pass}
  open lua use {units, one}

  abbrev policy : TokenBucketPolicy
  unfolding rate_limit_policy
  policy = rate_limit_policy fail_closed

  -- The tokens that a check finds.
  abbrev found : Option (BucketState lua.Number) → ℕ → ℕ
  found b now = units (refilled lua policy now (or_full lua policy now b))

  -- After `t`, at which a tenth of `q` is there, a check finds no more than what is refilled since and
  -- in one skew, but for its rounding.
  abbrev Credit : (q t : ℕ) → Store → Type 0
  Credit q t store =
      (d now : ℕ)
      → t + d ≤ now
      → now ≤ t + d + skew
      → now < bits
      → 10 * billion * found (hmget key (pass d store)) now ≤ billion * (q + (d + skew) * one) + one

  module _ (s : Settings)
      (closed : failure_mode_of s.rate_limit_default_fail_mode ≡ some fail_closed) where
    -- Tenths of a request, in units.
    abbrev Bounded : (q w n count : ℕ) → Type 0
    Bounded q w n count =
        10 * billion * (count * one) ≤ billion * (q + (w + n * skew) * one) + 2 * (n * one)
