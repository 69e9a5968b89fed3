-- ===== src/RateLimit/Examples.antt =====
-- The gateway's policy (100 tokens, 100 per second) at concrete inputs, over functions as Redis.
use sentinel_distributed_api.Prelude.{
  ℕ, ◌-◌, ◌*◌, ◌<◌, ◌≡◌, refl, inl, inr, String, true, false, Option, none, some, Bool-cases, ltb,
  if◌then◌else◌, str_eq,
}
use sentinel_distributed_api.RateLimit.Number.{exact}
use sentinel_distributed_api.RateLimit.{
  fail_closed, TokenBucketPolicy, BucketState, Redis, unreachable, check_token_bucket,
}

abbrev pub policy : TokenBucketPolicy
policy = record {
  capacity = 100;
  refill_rate = record { num = 100; den = 1 };
  cost = 1;
  ttl_seconds = 3600;
  failure_mode = fail_closed;
}

-- What is kept under each key: its bucket and what is left of its time to live.
abbrev pub Kept : Type 0
Kept = String → Option (BucketState ℕ) × ℕ

abbrev pub no_buckets : Kept
no_buckets key = (none, 0)

abbrev pub store_bucket : String → BucketState ℕ → Kept → Kept
store_bucket k b s j = if str_eq k j then (some b, (s j).1) else s j

abbrev pub set_ttl : String → ℕ → Kept → Kept
set_ttl k ttl s j = if str_eq k j then ((s j).0, 1000 * ttl) else s j

abbrev pub elapse : ℕ → Kept → Kept
elapse d s j = (if ltb d (s j).1 then (s j).0 else none, (s j).1 - d)

pub found_stored :
    (k j : String) (b : BucketState ℕ) (s : Kept)
    → (store_bucket k b s j).0 ≡ (if str_eq k j then some b else (s j).0)
found_stored k j b s = elim (Bool-cases (str_eq k j)) [ inl e ↦ rw e refl | inr e ↦ rw e refl ]

pub found_expiring : (k j : String) (ttl : ℕ) (s : Kept) → 0 < ttl → (set_ttl k ttl s j).0 ≡ (s j).0
found_expiring k j ttl s h = elim (Bool-cases (str_eq k j)) [
  | inl e ↦ rw e refl
  | inr e ↦ rw e refl
]

pub ttl_stored :
    (k j : String) (b : BucketState ℕ) (s : Kept)
    → str_eq k j ≡ false
    → (store_bucket k b s j).1 ≡ (s j).1
ttl_stored k j b s h = rw h refl

pub ttl_expiring :
    (k j : String) (ttl : ℕ) (b : BucketState ℕ) (s : Kept)
    → 0 < ttl
    → (set_ttl k ttl (store_bucket k b s) j).1
      ≡ (if str_eq k j then 1000 * ttl else (store_bucket k b s j).1)
ttl_expiring k j ttl b s h = elim (Bool-cases (str_eq k j)) [
  | inl e ↦ rw e refl
  | inr e ↦ rw e refl
]

abbrev pub dict_redis : Redis
dict_redis = record {
  lua = exact;
  Store = Kept;
  hmget = λ k s. (s k).0;
  hset = store_bucket;
  expire = set_ttl;
  pass = elapse;
  pttl = λ k s. (s k).1;
  hmget-hset = found_stored;
  hmget-expire = found_expiring;
  hmget-pass = λ k d s. refl;
  pttl-hset = ttl_stored;
  pttl-expire = ttl_expiring;
  pttl-pass = λ k d s. refl;
}

closed_when_down :
    (check_token_bucket dict_redis unreachable "rl:apikey:k" policy 7 no_buckets).0
    ≡ record { allowed = false; remaining = 0; retry_after_ms = 1000; limit = 100; degraded = true }
unfolding check_token_bucket
closed_when_down = refl
