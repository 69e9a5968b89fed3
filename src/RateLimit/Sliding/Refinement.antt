-- ===== src/RateLimit/Sliding/Refinement.antt =====
-- The script over Redis against its effect on the entries of one key.
use sentinel_distributed_api.Prelude.{
  ℕ, ◌+◌, ◌-◌, ◌*◌, ◌<◌, ◌≡◌, ◌≢◌, List, [], ◌∷◌, if◌then◌else◌, refl, String, false, arith, ltb,
  length, str_eq, str_eq_refl, str_eq_iff, Bool-cases, inl, inr, ◌⊎◌, ap,
}
use sentinel_distributed_api.RateLimit.{Link, served, unreachable, reply_lost, degraded_decision}
use sentinel_distributed_api.RateLimit.Sliding.{
  of_window_reply, receive_window, check_sliding_window, SlidingWindowPolicy, SortedSets,
  window_start, remove_upto, add_entry, slide, evaluate_window, sliding_window, left_over, Entry,
}

module _ (sets : SortedSets) (key other : String) (p : SlidingWindowPolicy) (now : ℕ)
    (member : String) (s : sets.Store) (lives : 0 < p.ttl_seconds) (apart : key ≢ other) where
  other_key : str_eq key other ≡ false
  other_key = ground (arith, str_eq_iff key other)

  swept :
      sets.zrange key (sets.zremrangebyscore key (window_start p now) s)
      ≡ remove_upto (window_start p now) (sets.zrange key s)
  swept = rw (sets.zrange-zremrangebyscore key key (window_start p now) s, str_eq_refl key) refl

  swept_other :
      sets.zrange other (sets.zremrangebyscore key (window_start p now) s) ≡ sets.zrange other s
  swept_other = rw (sets.zrange-zremrangebyscore key other (window_start p now) s, other_key) refl

  added :
      (t : sets.Store)
      → (sets.zrange key (sets.expire key p.ttl_seconds (sets.zadd key now member t))
          ≡ add_entry now member (sets.zrange key t))
        × (sets.zrange other (sets.expire key p.ttl_seconds (sets.zadd key now member t))
            ≡ sets.zrange other t)
  added t = (
    rw
        (
          sets.zrange-expire key key p.ttl_seconds (sets.zadd key now member t) lives,
          sets.zrange-zadd key key now member t,
          str_eq_refl key,
        )
        refl,
    rw
        (
          sets.zrange-expire key other p.ttl_seconds (sets.zadd key now member t) lives,
          sets.zrange-zadd key other now member t,
          other_key,
        )
        refl,
  )

  -- The script answers by the entries of its own key, stores what it makes of them there, and leaves
  -- every other key as it was. (The time to live is above 0.)
  pub sliding_window-evaluate_window :
      let r = sliding_window sets key p now member s in
      let e = evaluate_window p now member (sets.zrange key s) in
      (r.0 ≡ e.0) × (sets.zrange key r.1 ≡ e.1) × (sets.zrange other r.1 ≡ sets.zrange other s)
  unfolding sliding_window evaluate_window slide
  sliding_window-evaluate_window =
      let t = sets.zremrangebyscore key (window_start p now) s in
      elim (Bool-cases
        (ltb (length (remove_upto (window_start p now) (sets.zrange key s))) p.limit)) [
          | inl room ↦
              rw (swept, room) (refl, rw ((added t).0, swept) refl, rw ((added t).1) swept_other)
          | inr full ↦
              rw (swept, full)
                (
                  refl,
                  rw (sets.zrange-expire key key p.ttl_seconds t lives) swept,
                  rw (sets.zrange-expire key other p.ttl_seconds t lives) swept_other,
                )
        ]

  expire-left :
      (d : ℕ) (es : List Entry) (t : sets.Store)
      → sets.zrange key t ≡ es
      → sets.zrange key (sets.pass d (sets.expire key p.ttl_seconds t))
        ≡ (if ltb d (1000 * p.ttl_seconds) then es else [])
  expire-left d [] t e =
      rw (sets.zrange-pass key d _, sets.zrange-expire key key p.ttl_seconds t lives, e)
        (ground arith)
  expire-left d (x ∷ xs) t e =
      let there : sets.zrange key t ≢ [] = λ none_left. cc in
      rw
        (
          sets.zrange-pass key d (sets.expire key p.ttl_seconds t),
          sets.zrange-expire key key p.ttl_seconds t lives,
          sets.pttl-expire key p.ttl_seconds t lives there,
          e,
        )
        refl

  -- What the script stored is there until its time to live is over. (It is above 0.)
  pub sliding_window-left_over :
      (d : ℕ)
      → sets.zrange key (sets.pass d (sliding_window sets key p now member s).1)
        ≡ left_over p now (now + d) (evaluate_window p now member (sets.zrange key s)).1
  unfolding sliding_window evaluate_window slide left_over
  sliding_window-left_over d =
      let t = sets.zremrangebyscore key (window_start p now) s in
      let since : (now + d) - now ≡ d = omega arith in
      elim (Bool-cases
        (ltb (length (remove_upto (window_start p now) (sets.zrange key s))) p.limit)) [
          | inl room ↦
              rw (swept, room, since)
                (expire-left d _ (sets.zadd key now member t)
                  (rw (sets.zrange-zadd key key now member t, str_eq_refl key, swept) refl))
          | inr full ↦ rw (swept, full, since) (expire-left d _ t swept)
        ]

  -- A check that does not reach Redis is decided by the failure mode and changes nothing. Otherwise
  -- the script's new entries are stored under the key and another key is left alone, and the
  -- decision is the script's, or the failure mode's if the reply is lost. (The time to live is
  -- above 0.)
  pub check_sliding_window_lem :
      (link : Link)
      → let r = check_sliding_window sets link key p now member s in
        let e = evaluate_window p now member (sets.zrange key s) in
        ((link ≡ unreachable) × (r ≡ (degraded_decision p.failure_mode p.limit, s)))
        ⊎ ((sets.zrange key r.1 ≡ e.1)
            × (sets.zrange other r.1 ≡ sets.zrange other s)
            × (((link ≡ served) × (r.0 ≡ of_window_reply sets p e.0))
                ⊎ ((link ≡ reply_lost) × (r.0 ≡ degraded_decision p.failure_mode p.limit))))
  unfolding check_sliding_window receive_window
  check_sliding_window_lem served =
      let (same, own, others) = sliding_window-evaluate_window in
      inr (own, others, inl (refl, ap (of_window_reply sets p) same))
  check_sliding_window_lem unreachable = inl (refl, refl)
  check_sliding_window_lem reply_lost =
      let (same, own, others) = sliding_window-evaluate_window in
      inr (own, others, inr (refl, refl))
