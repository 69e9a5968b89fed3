-- ===== src/RateLimit/Sliding.antt =====
-- `check_sliding_window` of packages/redis/client.py and packages/redis/lua/sliding_window.lua.
-- Redis is a parameter: the sorted-set commands of the script, with their documented effect on the
-- entries of a set in the order of their scores. (Entries of one score are kept in the order in
-- which they were added; the script reads nothing of their order but the scores.)
pub mod Expiry
pub mod Admissions
pub mod Refinement
pub mod Waiting
pub mod Examples
use Prim.Native.String.{◌++◌}
use sentinel_distributed_api.Prelude.{
  ℕ, zero, suc, ◌+◌, ◌-◌, ◌*◌, ◌<◌, ◌≡◌, ◌≢◌, String, Bool, true, false, not, Option, none, some,
  List, [], ◌∷◌, length, keep, leb, ltb, if◌then◌else◌, str_eq,
}
use sentinel_distributed_api.RateLimit.{
  RedisFailureMode, RateLimitDecision, Link, served, unreachable, reply_lost, Reply,
  degraded_decision,
}

pub record SlidingWindowPolicy : Type 0 where
  pub limit : ℕ
  pub window_seconds : ℕ
  pub ttl_seconds : ℕ
  pub failure_mode : RedisFailureMode

abbrev pub window_ms : SlidingWindowPolicy → ℕ
window_ms p = p.window_seconds * 1000

pub record Entry : Type 0 where
  pub score : ℕ
  pub member : String

-- `now_ms - window_ms`; `none` is a negative number, which is below every score.
unfoldable pub window_start : SlidingWindowPolicy → ℕ → Option ℕ
window_start p now = if leb (window_ms p) now then some (now - window_ms p) else none

-- What ZREMRANGEBYSCORE from -inf leaves.
unfoldable pub is_above : Option ℕ → Entry → Bool
is_above none e = true
is_above (some m) e = ltb m e.score

unfoldable pub remove_upto : Option ℕ → List Entry → List Entry
unfolding is_above
remove_upto m = keep (is_above m)

-- ZADD: an entry of the same member is replaced.
unfoldable pub place : Entry → List Entry → List Entry
place e [] = e ∷ []
place e (x ∷ xs) = let rest = place e xs in if leb x.score e.score then x ∷ rest else e ∷ x ∷ xs

unfoldable pub is_other : String → Entry → Bool
is_other member e = not (str_eq e.member member)

unfoldable pub add_entry : ℕ → String → List Entry → List Entry
unfolding place is_other
add_entry score member es =
    place (record { score = score; member = member }) (keep (is_other member) es)

-- `retry_after_ms` of a rejection, from what ZRANGE 0 0 gives.
unfoldable pub wait_for_oldest : SlidingWindowPolicy → ℕ → List Entry → ℕ
wait_for_oldest p now [] = 0
wait_for_oldest p now (e ∷ es) = e.score + window_ms p - now

-- The script between its first command and EXPIRE, on the entries that are left. The member is
-- `member_id .. ":" .. now_ms`.
unfoldable pub slide : SlidingWindowPolicy → ℕ → String → List Entry → Reply × List Entry
unfolding add_entry wait_for_oldest
slide p now member es =
    if ltb (length es) p.limit
    then ((true, length es + 1, 0), add_entry now member es)
    else ((false, length es, wait_for_oldest p now es), es)

-- The script on the entries of its key, up to EXPIRE, which the store does (`left_over`).
unfoldable pub evaluate_window : SlidingWindowPolicy → ℕ → String → List Entry → Reply × List Entry
unfolding slide remove_upto window_start
evaluate_window p now member es = slide p now member (remove_upto (window_start p now) es)

-- What is left of a set at `now` whose time to live was last set at `last`: the key is gone once it is
-- over. The script sets it in every evaluation.
unfoldable pub left_over : SlidingWindowPolicy → (last now : ℕ) → List Entry → List Entry
left_over p last now es = if ltb (now - last) (1000 * p.ttl_seconds) then es else []

-- The commands, and `pass d`, what `d` milliseconds do by themselves: a key is gone once its time to
-- live, `pttl`, is over. EXPIRE sets it of a key that is there. `zrange k` gives all entries of the set at `k`, and ZCARD their number.
pub record SortedSets : Type 1 where
  pub Store : Type 0
  pub zrange : String → Store → List Entry
  pub zremrangebyscore : String → Option ℕ → Store → Store
  pub zadd : String → ℕ → String → Store → Store
  pub expire : String → ℕ → Store → Store
  pub pass : ℕ → Store → Store
  pub pttl : String → Store → ℕ
  pub zrange-zremrangebyscore :
      (k j : String) (m : Option ℕ) (s : Store)
      → zrange j (zremrangebyscore k m s)
        ≡ (if str_eq k j then remove_upto m (zrange j s) else zrange j s)
  pub zrange-zadd :
      (k j : String) (score : ℕ) (member : String) (s : Store)
      → zrange j (zadd k score member s)
        ≡ (if str_eq k j then add_entry score member (zrange j s) else zrange j s)
  pub zrange-expire :
      (k j : String) (ttl : ℕ) (s : Store) → 0 < ttl → zrange j (expire k ttl s) ≡ zrange j s
  pub zrange-pass :
      (k : String) (d : ℕ) (s : Store)
      → zrange k (pass d s) ≡ (if ltb d (pttl k s) then zrange k s else [])
  pub pttl-expire :
      (k : String) (ttl : ℕ) (s : Store)
      → 0 < ttl
      → zrange k s ≢ []
      → pttl k (expire k ttl s) ≡ 1000 * ttl

module _ (sets : SortedSets) where
  open sets use {Store, zrange, zremrangebyscore, zadd, expire}

  -- sliding_window.lua, one atomic evaluation.
  unfoldable pub sliding_window : String → SlidingWindowPolicy → ℕ → String → Store → Reply × Store
  unfolding window_start wait_for_oldest
  sliding_window key p now member s =
      let s' = zremrangebyscore key (window_start p now) s in
      let current_count = length (zrange key s') in
      if ltb current_count p.limit
      then ((true, current_count + 1, 0), expire key p.ttl_seconds (zadd key now member s'))
      else (
        (false, current_count, wait_for_oldest p now (zrange key s')),
        expire key p.ttl_seconds s',
      )

  -- `remaining` is `max(0, limit - count)`.
  abbrev pub of_window_reply : SlidingWindowPolicy → Reply → RateLimitDecision
  of_window_reply p r = record {
    allowed = r.0;
    remaining = p.limit - r.1;
    retry_after_ms = r.2;
    limit = p.limit;
    degraded = false;
  }

  unfoldable pub receive_window :
      Link → SlidingWindowPolicy → Store → Reply × Store → RateLimitDecision × Store
  unfolding degraded_decision
  receive_window served p s (reply, s') = (of_window_reply p reply, s')
  receive_window unreachable p s (reply, s') = (degraded_decision p.failure_mode p.limit, s)
  receive_window reply_lost p s (reply, s') = (degraded_decision p.failure_mode p.limit, s')

  unfoldable pub check_sliding_window :
      Link → String → SlidingWindowPolicy → ℕ → String → Store → RateLimitDecision × Store
  unfolding sliding_window receive_window
  check_sliding_window link key p now member s =
      receive_window link p s (sliding_window key p now member s)
