-- ===== src/Breaker/Probes.antt =====
-- Fast failure while open, the bound on probes, recovery, and probes whose outcome is lost.
use sentinel_distributed_api.Prelude.{
  ℕ, suc, ◌+◌, ◌-◌, ◌≤◌, ◌<◌, ◌≡◌, refl, some, List, [], ◌∷◌, arith, length, All, min, dec_lt,
}
use sentinel_distributed_api.Breaker.{
  opened, half_open, CircuitBreaker, Call, reads_state, asks, succeeds, fails, Admission, admitted,
  circuit_open_error, refresh, before_request, record_success, record_failure, step, run,
}

-- The breaker opened at `since`.
abbrev pub OpenedAt : ℕ → CircuitBreaker → Type 0
OpenedAt since b = (b.state ≡ opened) × (b.opened_at ≡ some since)

-- The call reads a clock that stands before `t`, if its answer depends on it.
abbrev pub Before : ℕ → Call → Type 0
Before t (reads_state now) = now < t
Before t (asks now) = now < t
Before t (succeeds now) = Unit
Before t (fails now later) = Unit

step-OpenedAt :
    (since d : ℕ) (b : CircuitBreaker) (c : Call)
    → b.config.open_duration ≡ d
    → OpenedAt since b
    → Before (since + d) c
    → OpenedAt since (step b c) × ((step b c).config.open_duration ≡ d)
unfolding step refresh before_request record_success record_failure
step-OpenedAt since d b (reads_state now) e o h = ground arith
step-OpenedAt since d b (asks now) e o h = ground arith
step-OpenedAt since d b (succeeds now) e o h = ground arith
step-OpenedAt since d b (fails now later) e o h = ground arith

run-OpenedAt :
    (since d : ℕ) (b : CircuitBreaker) (cs : List Call)
    → b.config.open_duration ≡ d
    → OpenedAt since b
    → All (Before (since + d)) cs
    → OpenedAt since (run b cs) × ((run b cs).config.open_duration ≡ d)
unfolding run
run-OpenedAt since d b [] e o h = (o, e)
run-OpenedAt since d b (c ∷ cs) e o h =
    let (o', e') = step-OpenedAt since d b c e o h.0 in run-OpenedAt since d (step b c) cs e' o' h.1

pub before_request_early :
    (since d now : ℕ) (b : CircuitBreaker)
    → b.config.open_duration ≡ d
    → OpenedAt since b
    → now < since + d
    → before_request now b ≡ (circuit_open_error, b)
unfolding before_request refresh
before_request_early since d now b e o h = ground arith

-- A circuit that opened at `since` turns every request away until `open_duration` has passed,
-- whatever calls came in between, and turning one away changes nothing.
pub open_fails_fast :
    (since now : ℕ) (b : CircuitBreaker) (cs : List Call)
    → OpenedAt since b
    → All (Before (since + b.config.open_duration)) cs
    → now < since + b.config.open_duration
    → before_request now (run b cs) ≡ (circuit_open_error, run b cs)
open_fails_fast since now b cs o early h =
    let (o', e) = run-OpenedAt since b.config.open_duration b cs refl o early in
    before_request_early since b.config.open_duration now (run b cs) e o' h

abbrev count_admitted : Admission → ℕ → ℕ
count_admitted admitted n = suc n
count_admitted circuit_open_error n = n

-- Requests that ask in turn, at the given times: how many are let through, and the breaker after.
pub ask_all : CircuitBreaker → List ℕ → ℕ × CircuitBreaker
ask_all b [] = (0, b)
ask_all b (t ∷ ts) =
    let (answer, c) = before_request t b in
    let (n, d) = ask_all c ts in (count_admitted answer n, d)

-- A half-open breaker with `k` probes in flight, of at most `m`.
abbrev pub Probing : ℕ → ℕ → CircuitBreaker → Type 0
Probing m k b =
    (b.state ≡ half_open) × (b.config.half_open_max_requests ≡ m) × (b.half_open_in_flight ≡ k)

ask_half_open :
    (m k t : ℕ) (b : CircuitBreaker)
    → Probing m k b
    → k < m
    → ((before_request t b).0 ≡ admitted) × Probing m (suc k) (before_request t b).1
unfolding before_request refresh
ask_half_open m k t b p h = ground arith

ask_full :
    (m k t : ℕ) (b : CircuitBreaker)
    → Probing m k b
    → m ≤ k
    → before_request t b ≡ (circuit_open_error, b)
unfolding before_request refresh
ask_full m k t b p h = ground arith

ask_all_full :
    (m k : ℕ) (b : CircuitBreaker) (ts : List ℕ) → Probing m k b → m ≤ k → ask_all b ts ≡ (0, b)
unfolding ask_all
ask_all_full m k b [] p h = refl
ask_all_full m k b (t ∷ ts) p h = ground (arith, ask_full m k t b p, ask_all_full m k b ts p)

ask_all_half_open :
    (m k : ℕ) (b : CircuitBreaker) (ts : List ℕ)
    → Probing m k b
    → k ≤ m
    → ((ask_all b ts).0 ≡ min (length ts) (m - k))
      × Probing m (k + min (length ts) (m - k)) (ask_all b ts).1
unfolding ask_all
ask_all_half_open m k b [] p h = ground arith
ask_all_half_open m k b (t ∷ ts) p h = elim (dec_lt k m) [
  | yes room ↦
      ground
        (arith, ask_half_open m k t b p room, ask_all_half_open m (suc k) (before_request t b).1 ts)
  | no full ↦ ground (arith, ask_full m k t b p (omega arith), ask_all_half_open m k b ts p h)
]

pub refresh_due :
    (since t : ℕ) (b : CircuitBreaker)
    → OpenedAt since b
    → since + b.config.open_duration ≤ t
    → Probing b.config.half_open_max_requests 0 (refresh t b)
      × (before_request t b ≡ before_request t (refresh t b))
      × ((refresh t b).half_open_successes ≡ 0)
unfolding refresh before_request
refresh_due since t b o h = ground arith

-- Once the open period is over, of any requests that ask in turn, before any of their outcomes is
-- recorded, exactly the first `half_open_max_requests` are let through (all of them, if they are
-- fewer).
pub ask_all_due :
    (since t : ℕ) (ts : List ℕ) (b : CircuitBreaker)
    → OpenedAt since b
    → since + b.config.open_duration ≤ t
    → ((ask_all b (t ∷ ts)).0 ≡ min (suc (length ts)) b.config.half_open_max_requests)
      × Probing b.config.half_open_max_requests
          (min (suc (length ts)) b.config.half_open_max_requests)
          (ask_all b (t ∷ ts)).1
unfolding ask_all
ask_all_due since t ts b o h =
    let (p, e, _) = refresh_due since t b o h in
    rw (e) (
      ground (
        arith,
        ask_all_half_open b.config.half_open_max_requests 0 (refresh t b) (t ∷ ts) p (omega arith),
      ))
