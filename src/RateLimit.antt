-- ===== src/RateLimit.antt =====
-- packages/redis/client.py and packages/redis/lua/token_bucket.lua. Redis and the numbers of its
-- scripts are parameters: the hash commands that the script uses, with their documented effect, and
-- the arithmetic of doubles (RateLimit/Number). Times are whole milliseconds below 10 ^ 14, which
-- doubles hold and `tostring` writes exactly.
pub mod Number
pub mod Rounding
pub mod Degraded
pub mod Sliding
pub mod Examples
use sentinel_distributed_api.RateLimit.Number.{Lua}
use sentinel_distributed_api.Prelude.{
  ℕ, zero, suc, ◌+◌, ◌-◌, ◌*◌, ◌/◌, ◌<◌, ◌≡◌, min, String, Bool, true, false, Option, none, some,
  List, [], ◌∷◌, Ratio, leb, ltb, if◌then◌else◌, str_eq,
}

pub data RedisFailureMode : Type 0 where
  fail_open fail_closed : RedisFailureMode

pub record RateLimitDecision : Type 0 where
  pub allowed : Bool
  pub remaining : ℕ
  pub retry_after_ms : ℕ
  pub limit : ℕ
  pub degraded : Bool

pub record TokenBucketPolicy : Type 0 where
  pub capacity : ℕ
  pub refill_rate : Ratio
  pub cost : ℕ
  pub ttl_seconds : ℕ
  pub failure_mode : RedisFailureMode

-- The fields `tokens` and `last_refill_ms` of the hash under a bucket's key.
pub record BucketState (N : Type 0) : Type 0 where
  pub tokens : N
  pub last_refill_ms : ℕ

-- What the script returns: allowed, remaining, retry_after_ms.
abbrev pub Reply : Type 0
Reply = Bool × ℕ × ℕ

module _ (lua : Lua) where
  open lua use {Number, of, of_ratio, add, sub, mul, div, le, floor, ceil, reread}

  -- A key that is not there counts as a full bucket, refilled now.
  abbrev pub or_full : TokenBucketPolicy → ℕ → Option (BucketState Number) → BucketState Number
  or_full p now none = record { tokens = of p.capacity; last_refill_ms = now }
  or_full p now (some b) = b

  -- `(elapsed_ms / 1000.0) * refill_rate`; a clock that went backwards adds none.
  unfoldable pub refill : TokenBucketPolicy → ℕ → Number
  refill p elapsed_ms = mul (div (of elapsed_ms) (of 1000)) (of_ratio p.refill_rate)

  -- `math.min(capacity, tokens + refill)`.
  unfoldable pub refilled : TokenBucketPolicy → ℕ → BucketState Number → Number
  unfolding refill
  refilled p now b =
      let tokens = add b.tokens (refill p (now - b.last_refill_ms)) in
      if le (of p.capacity) tokens then of p.capacity else tokens

  -- The script between its reads and its writes.
  unfoldable pub take_tokens : TokenBucketPolicy → ℕ → Number → Reply × BucketState Number
  take_tokens p now tokens =
      let left = sub tokens (of p.cost) in
      let deficit = sub (of p.cost) tokens in
      if le (of p.cost) tokens
      then ((true, floor left, 0), record { tokens = reread left; last_refill_ms = now })
      else (
        (false, floor tokens, ceil (mul (div deficit (of_ratio p.refill_rate)) (of 1000))),
        record { tokens = reread tokens; last_refill_ms = now },
      )

  unfoldable pub evaluate :
      TokenBucketPolicy → ℕ → Option (BucketState Number) → Reply × BucketState Number
  unfolding refilled take_tokens
  evaluate p now b = take_tokens p now (refilled p now (or_full p now b))

-- Redis, with the commands of the script. `pass d` is what `d` milliseconds do by themselves: a key is
-- gone once its time to live, `pttl`, is over, and no other key is. (EXPIRE comes after HSET, so the
-- key is there.)
pub record Redis : Type 1 where
  pub lua : Lua
  pub Store : Type 0
  pub hmget : String → Store → Option (BucketState lua.Number)
  pub hset : String → BucketState lua.Number → Store → Store
  pub expire : String → ℕ → Store → Store
  pub pass : ℕ → Store → Store
  pub pttl : String → Store → ℕ
  pub hmget-hset :
      (k j : String) (b : BucketState lua.Number) (s : Store)
      → hmget j (hset k b s) ≡ (if str_eq k j then some b else hmget j s)
  pub hmget-expire :
      (k j : String) (ttl : ℕ) (s : Store) → 0 < ttl → hmget j (expire k ttl s) ≡ hmget j s
  pub hmget-pass :
      (k : String) (d : ℕ) (s : Store)
      → hmget k (pass d s) ≡ (if ltb d (pttl k s) then hmget k s else none)
  pub pttl-hset :
      (k j : String) (b : BucketState lua.Number) (s : Store)
      → str_eq k j ≡ false
      → pttl j (hset k b s) ≡ pttl j s
  pub pttl-expire :
      (k j : String) (ttl : ℕ) (b : BucketState lua.Number) (s : Store)
      → 0 < ttl
      → pttl j (expire k ttl (hset k b s))
        ≡ (if str_eq k j then 1000 * ttl else pttl j (hset k b s))
  pub pttl-pass : (k : String) (d : ℕ) (s : Store) → pttl k (pass d s) ≡ pttl k s - d

-- What becomes of a call of the script: `RedisError` is raised before it ran, or after (a reply that
-- timed out), or not at all.
pub data Link : Type 0 where
  served unreachable reply_lost : Link

-- `_degraded_decision`.
abbrev is_fail_open : RedisFailureMode → Bool
is_fail_open fail_open = true
is_fail_open fail_closed = false

unfoldable pub degraded_decision : RedisFailureMode → ℕ → RateLimitDecision
degraded_decision mode limit = record {
  allowed = is_fail_open mode;
  remaining = if is_fail_open mode then limit else 0;
  retry_after_ms = if is_fail_open mode then 0 else 1000;
  limit = limit;
  degraded = true;
}

abbrev of_reply : TokenBucketPolicy → Reply → RateLimitDecision
of_reply p r = record {
  allowed = r.0;
  remaining = r.1;
  retry_after_ms = r.2;
  limit = p.capacity;
  degraded = false;
}

module _ (redis : Redis) where
  open redis use {lua, Store, hmget, hset, expire}

  -- token_bucket.lua, one atomic evaluation.
  unfoldable pub token_bucket : String → TokenBucketPolicy → ℕ → Store → Reply × Store
  unfolding evaluate
  token_bucket key p now s =
      let (reply, b) = evaluate lua p now (hmget key s) in
      (reply, expire key p.ttl_seconds (hset key b s))

  -- What the caller sees, given what the script would do.
  receive : Link → TokenBucketPolicy → Store → Reply × Store → RateLimitDecision × Store
  receive served p s (reply, s') = (of_reply p reply, s')
  receive unreachable p s (reply, s') = (degraded_decision p.failure_mode p.capacity, s)
  receive reply_lost p s (reply, s') = (degraded_decision p.failure_mode p.capacity, s')

  unfoldable pub check_token_bucket :
      Link → String → TokenBucketPolicy → ℕ → Store → RateLimitDecision × Store
  unfolding token_bucket receive degraded_decision
  check_token_bucket link key p now s = receive link p s (token_bucket key p now s)
