-- ===== src/Retry/Deadline.antt =====
-- One deadline for all attempts of a request.
use sentinel_distributed_api.Prelude.{ℕ, ◌+◌, ◌*◌, ◌≤◌, ◌<◌, ◌≡◌, ◌↔◌, true, arith}
use sentinel_distributed_api.Retry.{start_deadline, remaining, has_budget_for}

-- While time passes the budget only shrinks, by at most the time that passed, and it is gone
-- exactly from `total_deadline_ms` after the start on.
pub remaining_shrinks :
    (total_ms start now wait : ℕ)
    → start ≤ now
    → let d = start_deadline total_ms start in
      (remaining d (now + wait) ≤ remaining d now)
      × (remaining d now ≤ remaining d (now + wait) + wait)
      × ((remaining d now ≡ 0) ↔ (start + 1000 * total_ms ≤ now))
unfolding start_deadline remaining
remaining_shrinks total_ms start now wait h = ground arith

-- A backoff is granted exactly when it ends before the deadline.
pub has_budget_for_iff :
    (total_ms start now backoff : ℕ)
    → (has_budget_for (start_deadline total_ms start) backoff now ≡ true)
      ↔ (now + backoff < start + 1000 * total_ms)
unfolding has_budget_for start_deadline
has_budget_for_iff total_ms start now backoff = ground arith
