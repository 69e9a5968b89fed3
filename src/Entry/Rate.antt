-- ===== src/Entry/Rate.antt =====
-- How many requests of one client reach a backend, through all gateways that share one Redis.
pub mod Bound
pub mod Examples
use sentinel_distributed_api.Prelude.{
  ℕ, suc, ◌+◌, ◌-◌, ◌*◌, ◌≤◌, ◌<◌, ◌≡◌, ◌⊎◌, inl, inr, refl, ap, ◌∙◌, String, Bool, true, false,
  not, ◌&&◌, some, List, [], ◌∷◌, arith, if◌then◌else◌, str_eq,
}
use sentinel_distributed_api.RateLimit.{Redis, fail_closed, evaluate}
use sentinel_distributed_api.RateLimit.Degraded.{check_closed, check_other}
use sentinel_distributed_api.Gateway.{Gateway, Attempt}
use sentinel_distributed_api.Pipeline.{Pipeline, Surroundings, handle}
use sentinel_distributed_api.Settings.{Settings}
use sentinel_distributed_api.Metrics.{Metrics}
use sentinel_distributed_api.Entry.{
  HttpRequest, rate_limit_key, rate_limit_policy, to_request, failure_mode_of, proxy, proxy_in_mode,
}
use sentinel_distributed_api.Pipeline.Metered.{handle_meters}

-- A request to one of the gateways: the true time of its check, the gateway it comes to, in whatever
-- state that is, and what happens around it.
pub record Arrival : Type 0 where
  pub time : ℕ
  pub pipeline : Pipeline
  pub around : Surroundings
  pub metrics : Metrics
  pub gateway : Gateway
  pub meanwhile : Metrics → Metrics
  pub new_request_id : String
  pub duration : ℕ
  pub request : HttpRequest

-- The arrivals in the order of their checks, from `lo` to `hi`: the clock of each gateway is ahead
-- of the true time by at most `skew` milliseconds.
abbrev pub Ordered : (skew lo hi : ℕ) → List Arrival → Type 0
Ordered skew lo hi [] = lo ≤ hi
Ordered skew lo hi (a ∷ later) =
    (lo ≤ a.time)
    × (a.time ≤ a.around.now_ms)
    × (a.around.now_ms ≤ a.time + skew)
    × Ordered skew a.time hi later

pub Ordered-le : (skew lo hi : ℕ) (arrivals : List Arrival) → Ordered skew lo hi arrivals → lo ≤ hi
Ordered-le skew lo hi [] h = h
Ordered-le skew lo hi (a ∷ later) h = omega (arith, h.0, Ordered-le skew a.time hi later h.3)

abbrev pub is_empty : List Attempt → Bool
is_empty [] = true
is_empty (a ∷ later) = false

-- How many requests have the key.
abbrev pub count_key : String → List Arrival → ℕ
count_key key [] = 0
count_key key (a ∷ later) =
    if str_eq (rate_limit_key a.request) key then suc (count_key key later) else count_key key later

module _ (redis : Redis) (s : Settings) where
  open redis use {Store, hmget, pttl, pass}

  -- The calls of a backend that `proxy` makes, and the buckets after it.
  unfoldable pub proxied : Arrival → Store → List Attempt × Store
  unfolding proxy
  proxied a store =
      let r =
        proxy redis s a.pipeline a.around a.meanwhile a.new_request_id a.duration a.request
          a.metrics a.gateway store in
      (r.2, r.1.2)

  -- How many requests with the key a backend is called for, from the time `last` on. Between them
  -- time passes, and keys expire.
  unfoldable pub count_forwarded : String → (last : ℕ) → List Arrival → Store → ℕ
  unfolding proxied
  count_forwarded key last [] store = 0
  count_forwarded key last (a ∷ later) store =
      let (sent, store') = proxied a (pass (a.time - last) store) in
      let rest = count_forwarded key a.time later store' in
      if str_eq (rate_limit_key a.request) key && not (is_empty sent) then suc rest else rest

  proxied_closed :
      (a : Arrival) (store : Store)
      → failure_mode_of s.rate_limit_default_fail_mode ≡ some fail_closed
      → let q = to_request s a.new_request_id fail_closed a.request in
        let r = handle redis a.pipeline a.around q a.gateway store in proxied a store ≡ (r.2, r.1.1)
  unfolding proxied proxy proxy_in_mode
  proxied_closed a store closed = rw closed refl

  -- What a request does to the bucket of its key, and of another.
  abbrev pub Own : String → Arrival → Store → Type 0
  Own key a store =
      let found =
        evaluate redis.lua (rate_limit_policy fail_closed) a.around.now_ms (hmget key store) in
      let (sent, store') = proxied a store in
      ((store' ≡ store) × (sent ≡ []))
      ⊎ ((hmget key store' ≡ some found.1)
          × (pttl key store' ≡ 3_600_000)
          × ((sent ≡ []) ⊎ (found.0.0 ≡ true)))

  pub Own-step :
      (a : Arrival) (store : Store)
      → failure_mode_of s.rate_limit_default_fail_mode ≡ some fail_closed
      → Own (rate_limit_key a.request) a store
  unfolding to_request rate_limit_policy
  Own-step a store closed =
      let q = to_request s a.new_request_id fail_closed a.request in
      let key = rate_limit_key a.request in
      let p = rate_limit_policy fail_closed in
      rw (proxied_closed a store closed)
        (elim (handle_meters redis a.pipeline a.around q a.gateway store) [
          | inl h ↦ inl h
          | inr (checked, calls) ↦
              elim (check_closed redis a.around.link key p a.around.now_ms store (omega arith)
                refl) [
                  | inl (same, denied) ↦ inl (checked ∙ same, elim calls [ inl e ↦ e | inr e ↦ cc ])
                  | inr (stored, kept, decided) ↦ inr (
                    ap (hmget key) checked ∙ stored,
                    ap (pttl key) checked ∙ kept,
                    elim calls [
                      | inl e ↦ inl e
                      | inr e ↦ elim decided [ inl denied ↦ cc | inr allowed ↦ inr allowed ]
                    ],
                  )
                ]
        ])

  pub other_step :
      (key : String) (a : Arrival) (store : Store)
      → failure_mode_of s.rate_limit_default_fail_mode ≡ some fail_closed
      → str_eq (rate_limit_key a.request) key ≡ false
      → (hmget key (proxied a store).1 ≡ hmget key store)
        × (pttl key (proxied a store).1 ≡ pttl key store)
  unfolding to_request rate_limit_policy
  other_step key a store closed ne =
      let q = to_request s a.new_request_id fail_closed a.request in
      rw (proxied_closed a store closed)
        (elim (handle_meters redis a.pipeline a.around q a.gateway store) [
          | inl (e, _) ↦ (ap (hmget key) e, ap (pttl key) e)
          | inr (e, _) ↦
              let (found, kept) =
                check_other redis a.around.link (rate_limit_key a.request) key
                  (rate_limit_policy fail_closed) a.around.now_ms store (omega arith) ne in
              (ap (hmget key) e ∙ found, ap (pttl key) e ∙ kept)
        ])
