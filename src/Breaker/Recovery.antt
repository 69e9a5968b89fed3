-- ===== src/Breaker/Recovery.antt =====
-- How a circuit closes again, and what happens when the outcome of a probe is never recorded.
use sentinel_distributed_api.Prelude.{
  ℕ, suc, ◌+◌, ◌≤◌, ◌≡◌, refl, subst, ap, sym, ◌∙◌, List, [], ◌∷◌, arith, length, All,
}
use sentinel_distributed_api.Breaker.{
  closed, half_open, CircuitBreaker, Call, reads_state, asks, succeeds, fails, circuit_open_error,
  admitted, refresh, before_request, record_success, step, run,
}
use sentinel_distributed_api.Breaker.Probes.{OpenedAt, refresh_due, ask_all, ask_all_due}

-- Requests, one after the other, that ask at the first time of a pair and succeed at the second.
abbrev pub rounds : List (ℕ × ℕ) → List Call
rounds [] = []
rounds ((t, u) ∷ ts) = asks t ∷ succeeds u ∷ rounds ts

-- Each of them is let in.
abbrev pub LetIn : CircuitBreaker → List (ℕ × ℕ) → Type 0
LetIn b [] = Unit
LetIn b ((t, u) ∷ ts) =
    ((before_request t b).0 ≡ admitted) × LetIn (step (step b (asks t)) (succeeds u)) ts

-- A breaker with no probe in flight that wants `left` more successes.
abbrev Wants : ℕ → CircuitBreaker → Type 0
Wants left b =
    (b.state ≡ half_open)
    × (b.half_open_in_flight ≡ 0)
    × (b.half_open_successes + left ≡ b.config.half_open_max_requests)

Wants-admits :
    (left t : ℕ) (b : CircuitBreaker) → Wants (suc left) b → (before_request t b).0 ≡ admitted
unfolding before_request refresh
Wants-admits left t b w = ground arith

round_Wants :
    (left t u : ℕ) (b : CircuitBreaker)
    → Wants (suc (suc left)) b
    → Wants (suc left) (step (step b (asks t)) (succeeds u))
unfolding step before_request refresh record_success
round_Wants left t u b w = ground arith

round_closes :
    (t u : ℕ) (b : CircuitBreaker)
    → Wants 1 b
    → let c = step (step b (asks t)) (succeeds u) in (c.state ≡ closed) × (c.outcomes ≡ [])
unfolding step before_request refresh record_success
round_closes t u b w = ground arith

rounds_close :
    (t u : ℕ) (ts : List (ℕ × ℕ)) (b : CircuitBreaker)
    → Wants (suc (length ts)) b
    → let c = run b (rounds ((t, u) ∷ ts)) in
      LetIn b ((t, u) ∷ ts) × (c.state ≡ closed) × (c.outcomes ≡ [])
unfolding run
rounds_close t u [] b w =
    let (shut, cleared) = round_closes t u b w in ((Wants-admits 0 t b w, _), shut, cleared)
rounds_close t u ((t', u') ∷ ts) b w =
    let later =
      rounds_close t' u' ts (step (step b (asks t)) (succeeds u))
        (round_Wants (length ts) t u b w) in
    ((Wants-admits (length ((t', u') ∷ ts)) t b w, later.0), later.1, later.2)

step_refreshed :
    (since now : ℕ) (b : CircuitBreaker)
    → OpenedAt since b
    → since + b.config.open_duration ≤ now
    → step b (asks now) ≡ step (refresh now b) (asks now)
unfolding step
step_refreshed since now b o h = ap (λ r. r.1) (refresh_due since now b o h).1

run_refreshed :
    (since now : ℕ) (b : CircuitBreaker) (cs : List Call)
    → OpenedAt since b
    → since + b.config.open_duration ≤ now
    → run b (asks now ∷ cs) ≡ run (refresh now b) (asks now ∷ cs)
unfolding run
run_refreshed since now b cs o h = ap (λ c. run c cs) (step_refreshed since now b o h)

-- Once the open period is over, if `half_open_max_requests` requests come one after the other, each of
-- which succeeds before the next asks, all of them are let in, and they close the circuit and clear
-- its window, whatever the clock says at each later step.
pub recovers :
    (since t u : ℕ) (b : CircuitBreaker) (ts : List (ℕ × ℕ))
    → OpenedAt since b
    → since + b.config.open_duration ≤ t
    → b.config.half_open_max_requests ≡ suc (length ts)
    → let c = run b (rounds ((t, u) ∷ ts)) in
      LetIn b ((t, u) ∷ ts) × (c.state ≡ closed) × (c.outcomes ≡ [])
unfolding run
recovers since t u b ts o h many =
    let (p, e, s) = refresh_due since t b o h in
    let done = rounds_close t u ts (refresh t b) (p.0, p.2, omega (arith, many)) in
    let asked = step_refreshed since t b o h in
    (
      (
        ap (λ r. r.0) e ∙ done.0.0,
        subst (λ c. LetIn (step c (succeeds u)) ts) (sym asked) done.0.1,
      ),
      subst (λ c. (run (step c (succeeds u)) (rounds ts)).state ≡ closed) (sym asked) done.1,
      subst (λ c. (run (step c (succeeds u)) (rounds ts)).outcomes ≡ []) (sym asked) done.2,
    )

-- A call that records no outcome.
abbrev pub RecordsNothing : Call → Type 0
RecordsNothing (reads_state now) = Unit
RecordsNothing (asks now) = Unit
RecordsNothing (succeeds now) = ⊥
RecordsNothing (fails now later) = ⊥

step_full :
    (b : CircuitBreaker) (c : Call)
    → b.state ≡ half_open
    → b.config.half_open_max_requests ≤ b.half_open_in_flight
    → RecordsNothing c
    → step b c ≡ b
unfolding step before_request refresh
step_full b (reads_state now) p h q = ground arith
step_full b (asks now) p h q = ground arith
step_full b (succeeds now) p h q = absurd q
step_full b (fails now later) p h q = absurd q

run_full :
    (b : CircuitBreaker) (cs : List Call)
    → b.state ≡ half_open
    → b.config.half_open_max_requests ≤ b.half_open_in_flight
    → All RecordsNothing cs
    → run b cs ≡ b
unfolding run
run_full b [] p h q = refl
run_full b (c ∷ cs) p h q = rw (step_full b c p h q.0) (run_full b cs p h q.1)

full_rejects :
    (now : ℕ) (b : CircuitBreaker)
    → b.state ≡ half_open
    → b.config.half_open_max_requests ≤ b.half_open_in_flight
    → (before_request now b).0 ≡ circuit_open_error
unfolding before_request refresh
full_rejects now b p h = ground arith

-- If `half_open_max_requests` probes were let through and their outcome is never recorded, the
-- breaker turns away every later request, however much time passes.
pub lost_probes_block :
    (since t now : ℕ) (ts : List ℕ) (b : CircuitBreaker) (cs : List Call)
    → OpenedAt since b
    → since + b.config.open_duration ≤ t
    → b.config.half_open_max_requests ≤ suc (length ts)
    → All RecordsNothing cs
    → (before_request now (run (ask_all b (t ∷ ts)).1 cs)).0 ≡ circuit_open_error
lost_probes_block since t now ts b cs o due many quiet =
    let (_, p) = ask_all_due since t ts b o due in
    rw (run_full (ask_all b (t ∷ ts)).1 cs p.0 (omega arith) quiet)
      (full_rejects now _ p.0 (omega arith))
