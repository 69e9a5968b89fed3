-- ===== src/Health/Log.antt =====
-- The log lines of `_check_instance`, written when the status of an instance changes.
use sentinel_distributed_api.Prelude.{
  ◌+◌, ◌≡◌, ◌≢◌, inl, inr, refl, String, Bool, true, false, not, ◌&&◌, some, List, [], ◌∷◌, ◌++◌,
  ltb, leb, if◌then◌else◌, Bool-cases,
}
use sentinel_distributed_api.Router.{
  InstanceStatus, healthy, unhealthy, draining, unknown, is_healthy, BackendInstance,
}
use sentinel_distributed_api.Logging.{no_fields, field, leaf, LogRecord, make_record, process}
use sentinel_distributed_api.Health.{
  Answer, answered, http_error, other_error, Thresholds, Counters, get, succeed, fail,
  check_instance,
}
use sentinel_distributed_api.Health.Streaks.{polls, findings, Follows, polls_flip}

pub data Change : Type 0 where
  became_healthy became_unhealthy : Change

abbrev is_unhealthy : InstanceStatus → Bool
is_unhealthy unhealthy = true
is_unhealthy _ = false

-- The two calls of the logger.
unfoldable pub change_record : String → String → Change → LogRecord
unfolding make_record process
change_record timestamp id became_healthy =
    make_record timestamp "INFO" "sentinel.health" "backend.became_healthy"
      (process (some (field "instance" (leaf id) no_fields)))
change_record timestamp id became_unhealthy =
    make_record timestamp "WARNING" "sentinel.health" "backend.became_unhealthy"
      (process (some (field "instance" (leaf id) no_fields)))

module _ (t : Thresholds) where
  -- What the two branches of `_check_instance` log.
  unfoldable pub log_success : Counters → BackendInstance → List Change
  unfolding get
  log_success c i =
      if leb t.success_threshold (get i.id c.consecutive_successes + 1) && not (is_healthy i.status)
      then became_healthy ∷ []
      else []

  unfoldable pub log_failure : Counters → BackendInstance → List Change
  unfolding get
  log_failure c i =
      if leb t.failure_threshold (get i.id c.consecutive_failures + 1)
        && not (is_unhealthy i.status)
      then became_unhealthy ∷ []
      else []

  unfoldable pub log_check : Answer → Counters → BackendInstance → List Change
  unfolding log_success log_failure
  log_check (answered s) c i = if ltb s 500 then log_success c i else log_failure c i
  log_check http_error c i = log_failure c i
  log_check other_error c i = []

-- The status that a line tells of.
abbrev pub told : InstanceStatus → List Change → InstanceStatus
told old [] = old
told old (became_healthy ∷ earlier) = healthy
told old (became_unhealthy ∷ earlier) = unhealthy

-- Each line tells of another status than the lines before it, the latest first.
abbrev pub News : InstanceStatus → List Change → Type 0
News old [] = Unit
News old (x ∷ earlier) = (told old (x ∷ []) ≢ told old earlier) × News old earlier

-- A line is written exactly when the status becomes another one.
healthy-News :
    (b : Bool) (old status : InstanceStatus) (log : List Change)
    → told old log ≡ status
    → News old log
    → let log' = (if b && not (is_healthy status) then became_healthy ∷ [] else []) ++ log in
      (told old log' ≡ (if b then healthy else status)) × News old log'
healthy-News false old status log e h = (e, h)
healthy-News true old healthy log e h = (e, h)
healthy-News true old unhealthy log e h = (refl, (λ d. cc, h))
healthy-News true old draining log e h = (refl, (λ d. cc, h))
healthy-News true old unknown log e h = (refl, (λ d. cc, h))

unhealthy-News :
    (b : Bool) (old status : InstanceStatus) (log : List Change)
    → told old log ≡ status
    → News old log
    → let log' = (if b && not (is_unhealthy status) then became_unhealthy ∷ [] else []) ++ log in
      (told old log' ≡ (if b then unhealthy else status)) × News old log'
unhealthy-News false old status log e h = (e, h)
unhealthy-News true old unhealthy log e h = (e, h)
unhealthy-News true old healthy log e h = (refl, (λ d. cc, h))
unhealthy-News true old draining log e h = (refl, (λ d. cc, h))
unhealthy-News true old unknown log e h = (refl, (λ d. cc, h))

module _ (t : Thresholds) (i : BackendInstance) where
  -- The lines of polls, the latest first.
  unfoldable pub lines : List Answer → List Change
  unfolding log_check polls
  lines [] = []
  lines (a ∷ older) = let (c, j) = polls t i older in log_check t a c j ++ lines older

  abbrev pub Tells : InstanceStatus → List Change → Type 0
  Tells status log = (told i.status log ≡ status) × News i.status log

  success-Tells :
      (c : Counters) (j : BackendInstance) (log : List Change)
      → Tells j.status log
      → Tells (succeed t c j).1.status (log_success t c j ++ log)
  unfolding succeed log_success
  success-Tells c j log (tells, news) =
      healthy-News (leb t.success_threshold (get j.id c.consecutive_successes + 1)) i.status
        j.status log tells news

  failure-Tells :
      (c : Counters) (j : BackendInstance) (log : List Change)
      → Tells j.status log
      → Tells (fail t c j).1.status (log_failure t c j ++ log)
  unfolding fail log_failure
  failure-Tells c j log (tells, news) =
      unhealthy-News (leb t.failure_threshold (get j.id c.consecutive_failures + 1)) i.status
        j.status log tells news

  lines-Tells : (as' : List Answer) → Tells (polls t i as').1.status (lines as')
  unfolding lines polls check_instance log_check
  lines-Tells [] = (refl, _)
  lines-Tells (answered s ∷ older) = elim (Bool-cases (ltb s 500)) [
    | inl up ↦ rw up (success-Tells (polls t i older).0 (polls t i older).1 _ (lines-Tells older))
    | inr down ↦
        rw down (failure-Tells (polls t i older).0 (polls t i older).1 _ (lines-Tells older))
  ]
  lines-Tells (http_error ∷ older) =
      failure-Tells (polls t i older).0 (polls t i older).1 _ (lines-Tells older)
  lines-Tells (other_error ∷ older) = lines-Tells older

  -- After any polls of an instance, the latest line of the log tells its status, which is the one it
  -- had at first if there is no line; and no line tells of the status that the instance already had.
  -- A poll changes the status only to HEALTHY after `success_threshold` findings in a row that the
  -- instance is up, or to UNHEALTHY after `failure_threshold` in a row that it is down.
  pub polls_logged :
      (a : Answer) (older : List Answer)
      → (told i.status (lines (a ∷ older)) ≡ (polls t i (a ∷ older)).1.status)
        × News i.status (lines (a ∷ older))
        × Follows t i
            (findings (a ∷ older))
            (polls t i older).1.status
            (polls t i (a ∷ older)).1.status
  polls_logged a older =
      ((lines-Tells (a ∷ older)).0, (lines-Tells (a ∷ older)).1, polls_flip t i a older)
