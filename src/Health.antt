-- ===== src/Health.antt =====
-- apps/gateway/health/checker.py. The instances of a service are a list of values, updated in
-- place; no instance is in two services. A poll is answered by a parameter, by its service and the
-- place of the instance in it. The log lines are in Health/Log. Not modelled: changes that others make to the instances while a
-- poll is on its way.
pub mod Streaks
pub mod Log
pub mod Rounds
pub mod Warmup
pub mod Examples
use sentinel_distributed_api.Prelude.{
  ℕ, zero, suc, ◌+◌, String, Bool, true, false, Option, none, some, List, [], ◌∷◌, ltb, leb,
  if◌then◌else◌, Dict, lookup, insert,
}
use sentinel_distributed_api.Router.{
  InstanceStatus, healthy, unhealthy, draining, unknown, BackendInstance,
}

-- What `client.get` does: it returns a response, or raises an `httpx.HTTPError`, or anything else.
pub data Answer : Type 0 where
  answered : (status_code : ℕ) → Answer
  http_error other_error : Answer

pub record Thresholds : Type 0 where
  pub failure_threshold : ℕ
  pub success_threshold : ℕ

-- The counters of a `HealthChecker`.
pub record Counters : Type 0 where
  pub consecutive_successes : Dict ℕ
  pub consecutive_failures : Dict ℕ

abbrev pub no_polls : Counters
no_polls = record { consecutive_successes = []; consecutive_failures = [] }

abbrev or_zero : Option ℕ → ℕ
or_zero none = 0
or_zero (some n) = n

-- `d.get(id, 0)`.
unfoldable pub get : String → Dict ℕ → ℕ
get id d = or_zero (lookup id d)

abbrev pub is_draining : InstanceStatus → Bool
is_draining draining = true
is_draining _ = false

module _ (t : Thresholds) where
  -- The two branches of `_check_instance`.
  unfoldable pub succeed : Counters → BackendInstance → Counters × BackendInstance
  unfolding get
  succeed c i =
      let n = get i.id c.consecutive_successes + 1 in
      (
        record {
          consecutive_successes = insert i.id n c.consecutive_successes;
          consecutive_failures = insert i.id 0 c.consecutive_failures;
        },
        record i { status = if leb t.success_threshold n then healthy else i.status },
      )

  unfoldable pub fail : Counters → BackendInstance → Counters × BackendInstance
  unfolding get
  fail c i =
      let n = get i.id c.consecutive_failures + 1 in
      (
        record {
          consecutive_successes = insert i.id 0 c.consecutive_successes;
          consecutive_failures = insert i.id n c.consecutive_failures;
        },
        record i {
          status = if leb t.failure_threshold n then unhealthy else i.status;
          failure_count = i.failure_count + 1;
        },
      )

  -- `_check_instance`; `none` is an exception that it does not catch.
  unfoldable pub check_instance :
      Answer → Counters → BackendInstance → Option (Counters × BackendInstance)
  unfolding succeed fail
  check_instance (answered s) c i = if ltb s 500 then some (succeed c i) else some (fail c i)
  check_instance http_error c i = some (fail c i)
  check_instance other_error c i = none

  -- The inner loop of `check_once`, from the instance at place `n` on; it says whether it came to
  -- its end, which an exception keeps it from.
  unfoldable pub check_instances :
      (ℕ → Answer) → ℕ → Counters → List BackendInstance → Bool × Counters × List BackendInstance
  unfolding check_instance
  check_instances poll n c [] = (true, c, [])
  check_instances poll n c (i ∷ is) =
      if is_draining i.status
      then (let (done, c', is') = check_instances poll (suc n) c is in (done, c', i ∷ is'))
      else elim (check_instance (poll n) c i) [
        | none ↦ (false, c, i ∷ is)
        | some r ↦
            let (done, c', is') = check_instances poll (suc n) r.0 is in (done, c', r.1 ∷ is')
      ]

  -- `check_once`.
  unfoldable pub check_once :
      (String → ℕ → Answer)
      → Counters
      → Dict (List BackendInstance)
      → Bool × Counters × Dict (List BackendInstance)
  unfolding check_instances
  check_once poll c [] = (true, c, [])
  check_once poll c ((service, is) ∷ rest) =
      let (done, c', is') = check_instances (poll service) 0 c is in
      let (all_done, c'', rest') = check_once poll c' rest in
      if done then (all_done, c'', (service, is') ∷ rest') else (false, c', (service, is') ∷ rest)

  -- `run_forever` for a number of rounds: the next one follows whether a round was ended by an
  -- exception or not.
  unfoldable pub run_rounds :
      List (String → ℕ → Answer)
      → Counters
      → Dict (List BackendInstance)
      → Counters × Dict (List BackendInstance)
  unfolding check_once
  run_rounds [] c d = (c, d)
  run_rounds (poll ∷ polls) c d = let (done, c', d') = check_once poll c d in run_rounds polls c' d'
