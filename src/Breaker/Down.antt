-- ===== src/Breaker/Down.antt =====
-- A circuit of the default configuration to which nothing but failures is recorded, up to some time:
-- it is closed with less than 20 of them, or open to the end of that time.
use sentinel_distributed_api.Prelude.{ℕ, suc, ◌+◌, ◌≤◌, ◌<◌, ◌≡◌, ◌⊎◌, inl, inr, ap, arith, dec_lt}
use sentinel_distributed_api.Breaker.{
  CircuitBreaker, default_config, admitted, circuit_open_error, refresh, before_request,
  record_failure,
}
use sentinel_distributed_api.Breaker.Failing.{
  Failing, closed_admits, record_failure-Failing, record_failure_last, record_failure_last_at,
}
use sentinel_distributed_api.Breaker.Probes.{OpenedAt, before_request_early}

-- What stays until `until` of the breaker of a service that fails, when at most `k` more failures are
-- recorded before it opens.
abbrev Worn : (k : ℕ) → CircuitBreaker → Type 0
Worn k b = (n : ℕ) × (20 ≤ n + k) × (n < 20) × Failing n b

abbrev Shut : (until : ℕ) → CircuitBreaker → Type 0
Shut until b =
    (since : ℕ) × OpenedAt since b × (b.config ≡ default_config) × (until ≤ since + 10_000_000)

abbrev pub Down : (until k : ℕ) → CircuitBreaker → Type 0
Down until k b = Worn k b ⊎ Shut until b

Worn-record_failure :
    (until k now later : ℕ) (b : CircuitBreaker)
    → Worn (suc k) b
    → until ≤ later + 10_000_000
    → Down until k (record_failure now later b)
Worn-record_failure until k now later b (n, sum, few, f) h = elim (dec_lt (suc n) 20) [
  | yes more ↦ inl (suc n, omega (arith, sum), more, record_failure-Failing n now later b f more)
  | no last ↦
      let full : suc n ≡ 20 = omega (arith, few, last) in
      let (at, config) = record_failure_last_at n now later b f full in
      inr (later, (record_failure_last n now later b f full, at), config, h)
]

Shut-record_failure :
    (until now later : ℕ) (b : CircuitBreaker)
    → Shut until b
    → Shut until (record_failure now later b)
unfolding record_failure
Shut-record_failure until now later b (since, o, config, h) =
    (since, ground (arith, o), ground (arith, o, config), h)

pub Down-record_failure :
    (until k now later : ℕ) (b : CircuitBreaker)
    → Down until (suc k) b
    → until ≤ later + 10_000_000
    → Down until k (record_failure now later b)
Down-record_failure until k now later b (inl w) h = Worn-record_failure until k now later b w h
Down-record_failure until k now later b (inr o) h = inr (Shut-record_failure until now later b o)

Shut-asks :
    (until now : ℕ) (b : CircuitBreaker)
    → Shut until b
    → now < until
    → before_request now b ≡ (circuit_open_error, b)
Shut-asks until now b (since, o, config, h) early =
    before_request_early since 10_000_000 now b (ap (λ c. c.open_duration) config) o
      (omega (arith, early, h))

-- A request is let in only while another failure may be recorded, and asking changes nothing.
pub Down-before_request :
    (until k now : ℕ) (b : CircuitBreaker)
    → Down until k b
    → now < until
    → ((before_request now b ≡ (admitted, b)) × (0 < k))
      ⊎ (before_request now b ≡ (circuit_open_error, b))
Down-before_request until k now b (inl (n, sum, few, f)) early =
    inl (closed_admits now b f.state, omega (arith, sum, few))
Down-before_request until k now b (inr o) early = inr (Shut-asks until now b o early)

pub Down-refresh :
    (until k now : ℕ) (b : CircuitBreaker) → Down until k b → now < until → refresh now b ≡ b
unfolding refresh
Down-refresh until k now b (inl (n, sum, few, f)) early = ground (arith, f.state)
Down-refresh until k now b (inr (since, o, config, h)) early =
    let duration : b.config.open_duration ≡ 10_000_000 = ap (λ c. c.open_duration) config in
    ground (arith, o, duration, early, h)
