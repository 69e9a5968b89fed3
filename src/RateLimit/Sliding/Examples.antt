-- ===== src/RateLimit/Sliding/Examples.antt =====
-- A window of two requests a second, over functions as Redis, and the theorems applied.
use sentinel_distributed_api.Prelude.{
  ◌+◌, ◌≤◌, ◌≡◌, ◌⊎◌, ◌≢◌, refl, String, true, false, List, [], ◌∷◌, arith, count, if◌then◌else◌,
  str_eq, str_eq_iff, str_eq_refl, ltb, ◌*◌, ◌-◌, ℕ,
}
use sentinel_distributed_api.RateLimit.{
  fail_closed, served, unreachable, reply_lost, degraded_decision,
}
use sentinel_distributed_api.RateLimit.Sliding.{
  SlidingWindowPolicy, Entry, SortedSets, remove_upto, add_entry, evaluate_window, left_over,
  check_sliding_window, is_other, of_window_reply,
}
use sentinel_distributed_api.RateLimit.Sliding.Admissions.{admissions, within, count-admissions-le}
use sentinel_distributed_api.RateLimit.Sliding.Waiting.{sliding_retry_exact}
use sentinel_distributed_api.RateLimit.Sliding.Refinement.{check_sliding_window_lem}

abbrev policy : SlidingWindowPolicy
policy = record { limit = 2; window_seconds = 1; ttl_seconds = 3600; failure_mode = fail_closed }

abbrev function_sets : SortedSets
function_sets = record {
  Store = (String → List Entry) × (String → ℕ);
  zrange = λ k s. s.0 k;
  zremrangebyscore = λ k m s. (λ j. if str_eq k j then remove_upto m (s.0 j) else s.0 j, s.1);
  zadd =
      λ k score member s. (λ j. if str_eq k j then add_entry score member (s.0 j) else s.0 j, s.1);
  expire = λ k ttl s. (s.0, λ j. if str_eq k j then 1000 * ttl else s.1 j);
  pass = λ d s. (λ j. if ltb d (s.1 j) then s.0 j else [], λ j. s.1 j - d);
  pttl = λ k s. s.1 k;
  zrange-zremrangebyscore = λ k j m s. refl;
  zrange-zadd = λ k j score member s. refl;
  zrange-expire = λ k j ttl s h. refl;
  zrange-pass = λ k d s. refl;
  pttl-expire = λ k ttl s h there. rw (str_eq_refl k) refl;
}

abbrev no_entries : (String → List Entry) × (String → ℕ)
no_entries = (λ j. [], λ j. 0)

abbrev requests : List Entry
requests =
    record { score = 5; member = "a" }
    ∷ record { score = 900; member = "b" }
    ∷ record { score = 1004; member = "c" }
    ∷ record { score = 1005; member = "d" }
    ∷ []

admitted_times : admissions policy 0 [] requests ≡ 5 ∷ 900 ∷ 1005 ∷ []
unfolding admissions left_over evaluate_window add_entry remove_upto str_eq
admitted_times = refl

count-admissions-le_example :
    count (within policy 1004) (admissions policy 0 [] requests) ≤ policy.limit
unfolding is_other str_eq
count-admissions-le_example =
    count-admissions-le policy 1004 0 requests (omega arith) (omega arith)
      (_, ((refl, _), ((refl, (refl, _)), ((refl, (refl, (refl, _))), _))))

abbrev full : List Entry
full = record { score = 5; member = "a" } ∷ record { score = 900; member = "b" } ∷ []

sliding_retry_exact_example :
    (evaluate_window policy
      (1000 + 5)
      "d"
      (left_over policy 1000 (1000 + 5) (evaluate_window policy 1000 "c" full).1)).0.0
    ≡ true
unfolding evaluate_window remove_upto
sliding_retry_exact_example =
    (sliding_retry_exact policy 1000 5 "c" "d" full (omega arith) (omega arith) (omega arith)
        (omega arith) (omega arith) refl).1
      (omega arith)

texts_differ : str_eq "k" "other" ≡ false
unfolding str_eq
texts_differ = refl

k≢other : ◌≢◌ {A = String} "k" "other"
k≢other = ground (arith, str_eq_iff "k" "other", texts_differ)

check_sliding_window_lem_example :
    let r = check_sliding_window function_sets served "k" policy 7 "a" no_entries in
    let e = evaluate_window policy 7 "a" [] in
    ((served ≡ unreachable) × (r ≡ (degraded_decision fail_closed 2, no_entries)))
    ⊎ ((function_sets.zrange "k" r.1 ≡ e.1)
        × (function_sets.zrange "other" r.1 ≡ [])
        × (((served ≡ served) × (r.0 ≡ of_window_reply function_sets policy e.0))
            ⊎ ((served ≡ reply_lost) × (r.0 ≡ degraded_decision fail_closed 2))))
check_sliding_window_lem_example =
    check_sliding_window_lem function_sets "k" "other" policy 7 "a" no_entries (omega arith) k≢other
      served
