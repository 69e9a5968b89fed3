-- ===== src/RateLimit/Sliding/Waiting.antt =====
-- How long a rejected request has to wait for its place in the window.
use sentinel_distributed_api.Prelude.{
  ℕ, ◌+◌, ◌*◌, ◌≤◌, ◌<◌, ◌≡◌, ◌↔◌, inl, inr, refl, String, true, false, Option, List, [], ◌∷◌,
  arith, length, All, ltb, Bool-cases, dec_le,
}
use sentinel_distributed_api.RateLimit.Sliding.{
  SlidingWindowPolicy, window_ms, Entry, window_start, is_above, remove_upto, wait_for_oldest,
  slide, evaluate_window, left_over,
}
use sentinel_distributed_api.RateLimit.Sliding.Expiry.{
  NotAfter, remove_upto-NotAfter, evaluate_window-left_over,
}
use sentinel_distributed_api.RateLimit.Sliding.Admissions.{length-remove_upto}

abbrev NotBefore : ℕ → List Entry → Type 0
NotBefore lo = All (λ e. lo ≤ e.score)

-- The order of a sorted set.
abbrev pub Ascending : List Entry → Type 0
Ascending [] = Unit
Ascending (e ∷ es) = All (λ x. e.score ≤ x.score) es × Ascending es

remove_upto-NotBefore :
    (lo : ℕ) (m : Option ℕ) (es : List Entry) → NotBefore lo es → NotBefore lo (remove_upto m es)
unfolding remove_upto
remove_upto-NotBefore lo m [] h = _
remove_upto-NotBefore lo m (e ∷ es) h = elim (Bool-cases (is_above m e)) [
  | inl up ↦ rw up (h.0, remove_upto-NotBefore lo m es h.1)
  | inr out ↦ rw out (remove_upto-NotBefore lo m es h.1)
]

remove_upto-Ascending :
    (m : Option ℕ) (es : List Entry) → Ascending es → Ascending (remove_upto m es)
unfolding remove_upto
remove_upto-Ascending m [] h = _
remove_upto-Ascending m (e ∷ es) h = elim (Bool-cases (is_above m e)) [
  | inl up ↦
      rw up (
        unfold remove_upto in remove_upto-NotBefore e.score m es h.0,
        remove_upto-Ascending m es h.1,
      )
  | inr out ↦ rw out (remove_upto-Ascending m es h.1)
]

module _ (p : SlidingWindowPolicy) where
  above_young :
      (t : ℕ) (e : Entry) → t < e.score + window_ms p → is_above (window_start p t) e ≡ true
  unfolding is_above window_start
  above_young t e h = ground arith

  above_old :
      (t : ℕ) (e : Entry) → e.score + window_ms p ≤ t → is_above (window_start p t) e ≡ false
  unfolding is_above window_start
  above_old t e h = ground arith

  none_removed :
      (t lo : ℕ) (es : List Entry)
      → NotBefore lo es
      → t < lo + window_ms p
      → remove_upto (window_start p t) es ≡ es
  unfolding remove_upto
  none_removed t lo [] h young = refl
  none_removed t lo (e ∷ es) h young =
      rw (above_young t e (omega (arith, h.0)), none_removed t lo es h.1 young) refl

  first_removed :
      (t : ℕ) (e : Entry) (es : List Entry)
      → e.score + window_ms p ≤ t
      → length (remove_upto (window_start p t) (e ∷ es)) ≤ length es
  unfolding remove_upto
  first_removed t e es old = rw (above_old t e old) (length-remove_upto p (window_start p t) es)

  -- Whether a full window admits a request at `t`.
  full_admits_iff :
      (now wait : ℕ) (m : String) (es : List Entry)
      → 0 < p.limit
      → Ascending es
      → length es ≡ p.limit
      → ((evaluate_window p (now + wait) m es).0.0 ≡ true) ↔ (wait_for_oldest p now es ≤ wait)
  unfolding evaluate_window slide wait_for_oldest
  full_admits_iff now wait m [] some_place sorted full = absurd (omega arith)
  full_admits_iff now wait m (e ∷ es) some_place sorted full =
      elim (dec_le (e.score + window_ms p) (now + wait)) [
        | yes old ↦ ground (arith, first_removed (now + wait) e es old)
        | no young ↦
            rw (none_removed (now + wait) e.score (e ∷ es) (omega arith, sorted.0) (omega arith))
              (ground arith)
      ]

  -- A rejection says exactly how long to wait: if nothing else happens in between, a request is
  -- admitted after `wait` milliseconds exactly when `retry_after_ms` have passed, also when the key
  -- expires meanwhile. (The window is no longer than the time to live, the limit is above 0, and the
  -- set is in order, has no entry from after `now` and holds at most as many as the limit.)
  pub sliding_retry_exact :
      (now wait : ℕ) (m m' : String) (es : List Entry)
      → window_ms p ≤ 1000 * p.ttl_seconds
      → 0 < p.limit
      → Ascending es
      → NotAfter now es
      → length es ≤ p.limit
      → (evaluate_window p now m es).0.0 ≡ false
      → let later = left_over p now (now + wait) (evaluate_window p now m es).1 in
        ((evaluate_window p (now + wait) m' later).0.0 ≡ true)
        ↔ ((evaluate_window p now m es).0.2 ≤ wait)
  sliding_retry_exact now wait m m' es long some_place sorted young few rejected =
      let rest = remove_upto (window_start p now) es in
      let full : ltb (length rest) p.limit ≡ false =
        unfold evaluate_window slide in ground (arith, rejected) in
      let e : evaluate_window p now m es
          ≡ ((false, length rest, wait_for_oldest p now rest), rest) =
        unfold evaluate_window slide in rw full refl in
      rw
        (
          e,
          evaluate_window-left_over p now (now + wait) m' rest
              (remove_upto-NotAfter p now now es young) (omega arith) long,
        )
        (full_admits_iff now wait m' rest some_place
          (remove_upto-Ascending (window_start p now) es sorted)
          (ground (arith, full, length-remove_upto p (window_start p now) es)))
