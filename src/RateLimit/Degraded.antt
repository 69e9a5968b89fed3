-- ===== src/RateLimit/Degraded.antt =====
-- The answers of the limiter as the gateway sees them, with Redis there or not.
use sentinel_distributed_api.Prelude.{
  ℕ, ◌<◌, ◌≡◌, ◌↔◌, ◌⊎◌, inl, inr, refl, String, true, false, some, arith, Bool-cases, ◌*◌,
  str_eq_refl, str_eq, str_eq_iff, ◌≢◌,
}
use sentinel_distributed_api.RateLimit.{
  fail_open, fail_closed, TokenBucketPolicy, BucketState, Redis, Link, served, unreachable,
  reply_lost, evaluate, check_token_bucket,
}

-- When Redis cannot be reached, or its reply is lost, the decision is marked degraded and admits
-- exactly under FAIL_OPEN; otherwise it is the script's, and is not marked.
pub check_token_bucket_modes :
    (redis : Redis) (link : Link) (key : String) (p : TokenBucketPolicy) (now : ℕ) (s : redis.Store)
    → let d = (check_token_bucket redis link key p now s).0 in
      ((link ≡ served)
        × (d.degraded ≡ false)
        × (d.allowed ≡ (evaluate redis.lua p now (redis.hmget key s)).0.0))
      ⊎ ((link ≢ served)
          × (d.degraded ≡ true)
          × ((d.allowed ≡ true) ↔ (p.failure_mode ≡ fail_open)))
unfolding check_token_bucket
check_token_bucket_modes redis served key p now s = ground arith
check_token_bucket_modes redis unreachable key p now s = ground arith
check_token_bucket_modes redis reply_lost key p now s = ground arith

module _ (redis : Redis) (key : String) (b : BucketState redis.lua.Number) (ttl : ℕ)
    (s : redis.Store) (h : 0 < ttl) where
  pub stored_own : redis.hmget key (redis.expire key ttl (redis.hset key b s)) ≡ some b
  stored_own =
      rw (redis.hmget-expire key key ttl _ h, redis.hmget-hset key key b s, str_eq_refl key)

  pub kept_own : redis.pttl key (redis.expire key ttl (redis.hset key b s)) ≡ 1000 * ttl
  kept_own = rw (redis.pttl-expire key key ttl b s h, str_eq_refl key) refl

  pub left_alone :
      (other : String)
      → str_eq key other ≡ false
      → let s' = redis.expire key ttl (redis.hset key b s) in
        (redis.hmget other s' ≡ redis.hmget other s) × (redis.pttl other s' ≡ redis.pttl other s)
  left_alone other ne = (
    rw (redis.hmget-expire key other ttl _ h, redis.hmget-hset key other b s, ne) refl,
    rw (redis.pttl-expire key other ttl b s h, ne) (redis.pttl-hset key other b s ne),
  )

  stored_other :
      (other : String)
      → key ≢ other
      → redis.hmget other (redis.expire key ttl (redis.hset key b s)) ≡ redis.hmget other s
  stored_other other ne =
      rw (redis.hmget-expire key other ttl _ h, redis.hmget-hset key other b s)
        (ground (arith, str_eq_iff key other))

-- The buckets do not interfere: a check that Redis served, or whose reply was lost, stores the
-- script's new state under its own key and leaves every other key as it was; one that did not reach
-- Redis changes nothing.
pub check_token_bucket_stores :
    (redis : Redis) (link : Link) (key other : String) (p : TokenBucketPolicy) (now : ℕ)
    (s : redis.Store)
    → 0 < p.ttl_seconds
    → key ≢ other
    → let s' = (check_token_bucket redis link key p now s).1 in
      ((link ≡ unreachable) × (s' ≡ s))
      ⊎ ((redis.hmget key s' ≡ some (evaluate redis.lua p now (redis.hmget key s)).1)
          × (redis.hmget other s' ≡ redis.hmget other s))
unfolding check_token_bucket
check_token_bucket_stores redis served key other p now s h ne =
    inr (stored_own redis key _ _ s h, stored_other redis key _ _ s h other ne)
check_token_bucket_stores redis unreachable key other p now s h ne = inl (refl, refl)
check_token_bucket_stores redis reply_lost key other p now s h ne =
    inr (stored_own redis key _ _ s h, stored_other redis key _ _ s h other ne)

-- Under FAIL_CLOSED a check leaves Redis alone and denies, or does what the script does, and allows
-- only what the script allows.
pub check_closed :
    (redis : Redis) (link : Link) (key : String) (p : TokenBucketPolicy) (now : ℕ) (s : redis.Store)
    → 0 < p.ttl_seconds
    → p.failure_mode ≡ fail_closed
    → let r = check_token_bucket redis link key p now s in
      let found = evaluate redis.lua p now (redis.hmget key s) in
      ((r.1 ≡ s) × (r.0.allowed ≡ false))
      ⊎ ((redis.hmget key r.1 ≡ some found.1)
          × (redis.pttl key r.1 ≡ 1000 * p.ttl_seconds)
          × ((r.0.allowed ≡ false) ⊎ (found.0.0 ≡ true)))
unfolding check_token_bucket
check_closed redis served key p now s h closed = inr (
  stored_own redis key _ _ s h,
  kept_own redis key _ _ s h,
  elim (Bool-cases (evaluate redis.lua p now (redis.hmget key s)).0.0) [
    | inl e ↦ inr e
    | inr e ↦ inl e
  ],
)
check_closed redis unreachable key p now s h closed = inl (refl, rw closed refl)
check_closed redis reply_lost key p now s h closed =
    inr (stored_own redis key _ _ s h, kept_own redis key _ _ s h, inl (rw closed refl))

-- A check does nothing to another key.
pub check_other :
    (redis : Redis) (link : Link) (key other : String) (p : TokenBucketPolicy) (now : ℕ)
    (s : redis.Store)
    → 0 < p.ttl_seconds
    → str_eq key other ≡ false
    → let s' = (check_token_bucket redis link key p now s).1 in
      (redis.hmget other s' ≡ redis.hmget other s) × (redis.pttl other s' ≡ redis.pttl other s)
unfolding check_token_bucket
check_other redis served key other p now s h ne = left_alone redis key _ _ s h other ne
check_other redis unreachable key other p now s h ne = (refl, refl)
check_other redis reply_lost key other p now s h ne = left_alone redis key _ _ s h other ne
