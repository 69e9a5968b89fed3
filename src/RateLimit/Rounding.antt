-- ===== src/RateLimit/Rounding.antt =====
-- One evaluation of a bucket of 100 tokens, 100 a second and 1 a request, as the gateway's are: what
-- the rounding of its numbers can grant.
use sentinel_distributed_api.Prelude.{
  ℕ, ◌+◌, ◌-◌, ◌*◌, ◌≤◌, ◌<◌, ◌≡◌, refl, sym, subst, true, false, Option, none, arith, leb, dec_le,
  ◌∙◌, if◌then◌else◌, Bool-cases, inl, inr,
}
use sentinel_distributed_api.RateLimit.Number.{Lua, bits, grains}
use sentinel_distributed_api.RateLimit.{
  TokenBucketPolicy, BucketState, or_full, refill, refilled, take_tokens, evaluate,
}

-- 10 ^ 9.
abbrev pub billion : ℕ
billion = 1000000000

cancel : (a b c : ℕ) → 0 < c → c * a ≤ c * b → a ≤ b
cancel a b c h k = grind arith

quotient :
    (x eo one b : ℕ)
    → x * (1000 * one) * b ≤ eo * one * (b + 1) + 1000 * one * b
    → one * (1000 * b * x) ≤ one * ((b + 1) * eo + 1000 * b)
quotient x eo one b h = grind arith

product :
    (x y one b : ℕ)
    → y * one * b ≤ x * (100 * one) * (b + 1) + one * b
    → one * (b * y) ≤ one * (100 * (b + 1) * x + b)
product x y one b h = grind arith

-- The error of a sum of at most 100 tokens.
sum_bound :
    (x sum tokens r eo one : ℕ)
    → grains ≤ one
    → bits * bits * 10 * r ≤ (bits + 1) * (bits + 1) * eo + 2000 * bits * (bits + 1)
    → sum * bits ≤ (tokens + r) * (bits + 1)
    → x ≤ sum
    → x ≤ 100 * one
    → 10 * billion * x ≤ billion * (10 * tokens + eo) + one
sum_bound x sum tokens r eo one large hr hs below full =
    elim (dec_le (1000 * one) (10 * tokens + eo)) [
      | yes much ↦ omega (arith, full, much)
      | no few ↦ omega (arith, large, hr, hs, below, few)
    ]

leb-true : (a b : ℕ) → leb a b ≡ true → a ≤ b
leb-true a b h = ground arith

leb-false : (a b : ℕ) → leb a b ≡ false → b ≤ a
leb-false a b h = ground arith

module _ (lua : Lua) (p : TokenBucketPolicy) (capacity : p.capacity ≡ 100) (cost : p.cost ≡ 1)
    (rate : p.refill_rate ≡ record { num = 100; den = 1 }) where
  open lua use {Number, of, units, one}

  rate_units : units (lua.of_ratio p.refill_rate) ≡ 100 * one
  rate_units = rw (rate, lua.of_ratio-whole 100 (omega arith)) (lua.units-of 100 (omega arith))

  -- The quotient `elapsed_ms / 1000.0`.
  seconds :
      (e : ℕ)
      → e < bits
      → let x = units (lua.div (of e) (of 1000)) in
        1000 * bits * x ≤ (bits + 1) * (e * one) + 1000 * bits
  seconds e h =
      let x = units (lua.div (of e) (of 1000)) in
      cancel (1000 * bits * x) ((bits + 1) * (e * one) + 1000 * bits) one
        (omega (arith, lua.one_large))
        (quotient x (e * one) one bits (
          subst (λ k. x * k * bits ≤ e * one * one * (bits + 1) + k * bits)
            (lua.units-of 1000 (omega arith))
            (subst (λ k. x * units (of 1000) * bits ≤ k * one * (bits + 1) + units (of 1000) * bits)
              (lua.units-of e h) (lua.div-le (of e) (of 1000)))))

  refill_bound :
      (e : ℕ)
      → e < bits
      → bits * bits * 10 * units (refill lua p e)
        ≤ (bits + 1) * (bits + 1) * (e * one) + 2000 * bits * (bits + 1)
  unfolding refill
  refill_bound e h =
      let x = lua.div (of e) (of 1000) in
      let y = units (lua.mul x (lua.of_ratio p.refill_rate)) in
      let grown : bits * y ≤ 100 * (bits + 1) * units x + bits =
        cancel (bits * y) (100 * (bits + 1) * units x + bits) one (omega (arith, lua.one_large)) (
          product (units x) y one bits (
            subst (λ k. y * one * bits ≤ units x * k * (bits + 1) + one * bits) rate_units
              (lua.mul-le x (lua.of_ratio p.refill_rate)))) in
      omega (arith, grown, seconds e h)

  -- The tokens of a refill are at most those of the time that passed, but for one part in a billion.
  pub refilled-le :
      (now : ℕ) (b : BucketState lua.Number)
      → now < bits
      → 10 * billion * units (refilled lua p now b)
        ≤ billion * (10 * units b.tokens + (now - b.last_refill_ms) * one) + one
  unfolding refilled
  refilled-le now b h =
      let e = now - b.last_refill_ms in
      let r = refill_bound e (omega (arith, h)) in
      let sum = lua.add-le b.tokens (refill lua p e) in
      let full : units (of p.capacity) ≡ 100 * one = rw capacity (lua.units-of 100 (omega arith)) in
      let is = lua.le-units (of p.capacity) (lua.add b.tokens (refill lua p e)) in
      let total = lua.add b.tokens (refill lua p e) in
      let bound = λ (x : ℕ) (below : x ≤ units total) (some_full : x ≤ 100 * one).
        sum_bound x (units total) (units b.tokens) (units (refill lua p e)) (e * one) one
          lua.one_large r sum below some_full in
      elim (Bool-cases (lua.le (of p.capacity) (lua.add b.tokens (refill lua p e)))) [
        | inl over ↦
            let most : units (of p.capacity) ≤ 100 * one = omega (arith, full) in
            rw over (bound (units (of p.capacity)) (leb-true _ _ (sym is ∙ over)) most)
        | inr under ↦
            let small = leb-false (units (of p.capacity)) (units total) (sym is ∙ under) in
            let most : units total ≤ 100 * one = omega (arith, small, full) in
            rw under (bound (units total) (omega arith) most)
      ]

  -- What is left, with what was paid, is what there was, but for one part in a billion.
  take_tokens-le :
      (now : ℕ) (tokens : lua.Number)
      → units tokens ≤ 100 * one
      → let (reply, b) = take_tokens lua p now tokens in
        10 * billion * (units b.tokens + (if reply.0 then one else 0))
        ≤ 10 * billion * units tokens + one
  unfolding take_tokens
  take_tokens-le now tokens most =
      let is = lua.le-units (of p.cost) tokens in
      let unit : units (of p.cost) ≡ 1 * one = rw cost (lua.units-of 1 (omega arith)) in
      let left = lua.sub tokens (of p.cost) in
      elim (Bool-cases (lua.le (of p.cost) tokens)) [
        | inl enough ↦
            let paid = leb-true (units (of p.cost)) (units tokens) (sym is ∙ enough) in
            rw enough (
              omega
                (arith, most, unit, paid, lua.sub-le tokens (of p.cost) paid, lua.reread-le left))
        | inr short ↦ rw short (omega (arith, most, lua.reread-le tokens))
      ]

  -- A bucket has at most 100 tokens, and one that is not there has all of them.
  pub refilled_most :
      (now : ℕ) (b : BucketState lua.Number) → units (refilled lua p now b) ≤ 100 * one
  unfolding refilled
  refilled_most now b =
      let total = lua.add b.tokens (refill lua p (now - b.last_refill_ms)) in
      let is = lua.le-units (of p.capacity) total in
      let full : units (of p.capacity) ≡ 100 * one = rw capacity (lua.units-of 100 (omega arith)) in
      elim (Bool-cases (lua.le (of p.capacity) total)) [
        | inl over ↦ rw over (omega (arith, full))
        | inr under ↦
            let small = leb-false (units (of p.capacity)) (units total) (sym is ∙ under) in
            rw under (omega (arith, small, full))
      ]

  pub full_admits : (now : ℕ) → (evaluate lua p now none).0.0 ≡ true
  unfolding evaluate take_tokens refilled
  full_admits now =
      let total = lua.add (of p.capacity) (refill lua p (now - now)) in
      let grows : units (of p.capacity) ≤ units total = lua.add-ge _ _ in
      let full : units (of p.capacity) ≡ 100 * one = rw capacity (lua.units-of 100 (omega arith)) in
      let unit : units (of p.cost) ≡ 1 * one = rw cost (lua.units-of 1 (omega arith)) in
      let over : lua.le (of p.capacity) total ≡ true =
        lua.le-units (of p.capacity) total ∙ ground (arith, grows) in
      let enough : lua.le (of p.cost) (of p.capacity) ≡ true =
        lua.le-units (of p.cost) (of p.capacity) ∙ ground (arith, full, unit) in
      rw (over, enough) refl

  -- What an evaluation finds is what it leaves and takes, but for one part in a billion.
  pub evaluate-le :
      (now : ℕ) (b : Option (BucketState lua.Number))
      → let x = units (refilled lua p now (or_full lua p now b)) in
        let (reply, b') = evaluate lua p now b in
        (b'.last_refill_ms ≡ now)
        × (10 * billion * (units b'.tokens + (if reply.0 then one else 0)) ≤ 10 * billion * x + one)
  unfolding evaluate
  evaluate-le now b = (dated _, take_tokens-le now _ (refilled_most now (or_full lua p now b)))
    where
      dated : (tokens : lua.Number) → (take_tokens lua p now tokens).1.last_refill_ms ≡ now
      dated tokens =
          unfold take_tokens in
          elim (Bool-cases (lua.le (of p.cost) tokens)) [ inl e ↦ rw e refl | inr e ↦ rw e refl ]
