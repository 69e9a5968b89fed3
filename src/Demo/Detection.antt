-- ===== src/Demo/Detection.antt =====
-- What the gateway's health checker makes of a demo service that is killed and restored.
use sentinel_distributed_api.Prelude.{
  ◌+◌, ◌*◌, ◌≤◌, ◌<◌, ◌≡◌, ◌⊎◌, ◌↔◌, refl, ◌∙◌, String, Bool, true, false, List, [], ◌∷◌, arith,
  All, length, Ratio, if◌then◌else◌,
}
use sentinel_distributed_api.Router.{BackendInstance, healthy, unhealthy}
use sentinel_distributed_api.Health.{Answer, answered, Thresholds}
use sentinel_distributed_api.Health.Streaks.{findings, streak, polls, polls_up, polls_down}
use sentinel_distributed_api.Demo.{
  State, Call, service_app, health, kill, restore, is_kill, is_restore, set_error_rate, set_latency,
  get_call, maybe_misbehave,
}

-- Calls with the draws that they meet.
abbrev pub Calls : Type 0
Calls = List (Ratio × Call)

module _ (service : String) where
  unfoldable pub run : Calls → State → State
  unfolding service_app
  run [] s = s
  run ((draw, c) ∷ cs) s = run cs (service_app service draw c s).1

  -- Rounds of calls with a poll of `/health` at the end of each, and the answers to the polls, the
  -- latest first, on top of earlier ones.
  unfoldable pub polled : List Calls → State → List Answer → List Answer
  unfolding run service_app health
  polled [] s earlier = earlier
  polled (cs ∷ rounds) s earlier =
      let s' = run cs s in polled rounds s' (answered (health s').status_code ∷ earlier)

  abbrev pub Without : (Call → Bool) → Calls → Type 0
  Without test = All (λ (dc : Ratio × Call). test dc.1 ≡ false)

  serve_stays_killed :
      (draw : Ratio) (c : Call) (s : State)
      → is_restore c ≡ false
      → s.killed ≡ true
      → (service_app service draw c s).1.killed ≡ true
  unfolding service_app kill restore set_error_rate set_latency
  serve_stays_killed draw c s h k = ground arith

  serve_stays_alive :
      (draw : Ratio) (c : Call) (s : State)
      → is_kill c ≡ false
      → s.killed ≡ false
      → (service_app service draw c s).1.killed ≡ false
  unfolding service_app kill restore set_error_rate set_latency
  serve_stays_alive draw c s h k = ground arith

  run_stays_killed :
      (cs : Calls) (s : State) → Without is_restore cs → s.killed ≡ true → (run cs s).killed ≡ true
  unfolding run
  run_stays_killed [] s h k = k
  run_stays_killed ((draw, c) ∷ cs) s h k =
      run_stays_killed cs (service_app service draw c s).1 h.1 (serve_stays_killed draw c s h.0 k)

  run_stays_alive :
      (cs : Calls) (s : State) → Without is_kill cs → s.killed ≡ false → (run cs s).killed ≡ false
  unfolding run
  run_stays_alive [] s h k = k
  run_stays_alive ((draw, c) ∷ cs) s h k =
      run_stays_alive cs (service_app service draw c s).1 h.1 (serve_stays_alive draw c s h.0 k)

  health_killed : (s : State) → s.killed ≡ true → (health s).status_code ≡ 503
  unfolding health
  health_killed s k = ground arith

  health_alive : (s : State) → s.killed ≡ false → (health s).status_code ≡ 200
  unfolding health
  health_alive s k = ground arith

  polled_killed :
      (rounds : List Calls) (s : State) (earlier : List Answer)
      → All (Without is_restore) rounds
      → s.killed ≡ true
      → streak false (findings (polled rounds s earlier))
        ≡ length rounds + streak false (findings earlier)
  unfolding polled
  polled_killed [] s earlier h k = omega arith
  polled_killed (cs ∷ rounds) s earlier h k =
      let down = run_stays_killed cs s h.0 k in
      rw (health_killed (run cs s) down) (
        polled_killed rounds (run cs s) (answered 503 ∷ earlier) h.1 down
        ∙ (unfold findings streak in omega arith))

  polled_alive :
      (rounds : List Calls) (s : State) (earlier : List Answer)
      → All (Without is_kill) rounds
      → s.killed ≡ false
      → streak true (findings (polled rounds s earlier))
        ≡ length rounds + streak true (findings earlier)
  unfolding polled
  polled_alive [] s earlier h k = omega arith
  polled_alive (cs ∷ rounds) s earlier h k =
      let up = run_stays_alive cs s h.0 k in
      rw (health_alive (run cs s) up) (
        polled_alive rounds (run cs s) (answered 200 ∷ earlier) h.1 up
        ∙ (unfold findings streak in omega arith))

  -- Whatever came before: a service that was killed is UNHEALTHY after `failure_threshold` polls,
  -- whatever calls come between the polls, if none of them restores it. (The threshold is above 0.)
  pub kill_detected :
      (t : Thresholds) (i : BackendInstance) (s : State) (earlier : List Answer)
      (rounds : List Calls)
      → 0 < t.failure_threshold
      → All (Without is_restore) rounds
      → t.failure_threshold ≤ length rounds
      → (polls t i (polled rounds (kill s).1 earlier)).1.status ≡ unhealthy
  kill_detected t i s earlier rounds positive h enough =
      let e = polled_killed rounds (kill s).1 earlier h (unfold kill in refl) in
      (polls_down t i (polled rounds (kill s).1 earlier) positive (omega (arith, e, enough))).0

  -- Whatever came before: a service that was restored is HEALTHY after `success_threshold` polls,
  -- whatever calls come between the polls, errors and latencies injected anew included, if none of
  -- them kills it. (The threshold is above 0.)
  pub restore_detected :
      (t : Thresholds) (i : BackendInstance) (s : State) (earlier : List Answer)
      (rounds : List Calls)
      → 0 < t.success_threshold
      → All (Without is_kill) rounds
      → t.success_threshold ≤ length rounds
      → (polls t i (polled rounds (restore s).1 earlier)).1.status ≡ healthy
  restore_detected t i s earlier rounds positive h enough =
      let e = polled_alive rounds (restore s).1 earlier h (unfold restore in refl) in
      polls_up t i (polled rounds (restore s).1 earlier) positive (omega (arith, e, enough))

  -- A data endpoint answers 503 exactly if the service is killed or the draw is below the injected
  -- rate, and 200 otherwise; it sleeps for the injected latency unless it is killed, and leaves the
  -- state as it is.
  pub get_call_fails_iff :
      (draw : Ratio) (user_id : String) (s : State)
      → let r = service_app service draw (get_call user_id) s in
        ((r.0.status_code ≡ 503) ↔ (
          (s.killed ≡ true)
          ⊎ (draw.num * s.forced_error_rate.den < s.forced_error_rate.num * draw.den)))
        × ((r.0.status_code ≡ 503) ⊎ (r.0.status_code ≡ 200))
        × (r.0.slept_ms ≡ (if s.killed then 0 else s.forced_latency_ms))
        × (r.1 ≡ s)
  unfolding service_app maybe_misbehave
  get_call_fails_iff draw user_id s = (ground arith, ground arith, ground arith, refl)
