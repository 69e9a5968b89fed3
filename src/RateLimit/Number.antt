-- ===== src/RateLimit/Number.antt =====
-- The numbers of a script: doubles that are finite and not negative, as all numbers of
-- token_bucket.lua are. Each is a whole number of units, of which 1 has `one` (2 ^ 1074 of them, the
-- least double). An operation gives the double nearest to its result, which is off by at most 1 part
-- in 2 ^ 53 or a unit; what is read back from the hash was written with 14 digits.
use sentinel_distributed_api.Prelude.{
  ℕ, ◌+◌, ◌-◌, ◌*◌, ◌/◌, ◌≤◌, ◌<◌, ◌≡◌, refl, Bool, Ratio, leb, arith,
}

-- 2 ^ 53.
abbrev pub bits : ℕ
bits = 9007199254740992

-- 10 ^ 13.
abbrev pub digits : ℕ
digits = 10000000000000

pub record Lua : Type 1 where
  pub Number : Type 0
  -- `tonumber` of a whole number, and of the text of a float of the caller.
  pub of : ℕ → Number
  pub of_ratio : Ratio → Number
  -- `sub` is used where its result is not negative.
  pub add : Number → Number → Number
  pub sub : Number → Number → Number
  pub mul : Number → Number → Number
  pub div : Number → Number → Number
  pub le : Number → Number → Bool
  pub floor : Number → ℕ
  pub ceil : Number → ℕ
  -- `tonumber(tostring(x))`.
  pub reread : Number → Number
  pub one : ℕ
  pub units : Number → ℕ
  pub one_large : 1000000000000000000000000000000 ≤ one
  pub units-of : (n : ℕ) → n < bits → units (of n) ≡ n * one
  pub of_ratio-whole : (n : ℕ) → n < bits → of_ratio (record { num = n; den = 1 }) ≡ of n
  pub le-units : (x y : Number) → le x y ≡ leb (units x) (units y)
  pub add-ge : (x y : Number) → units x ≤ units (add x y)
  pub add-le : (x y : Number) → units (add x y) * bits ≤ (units x + units y) * (bits + 1)
  pub sub-le :
      (x y : Number) → units y ≤ units x → units (sub x y) * bits ≤ (units x - units y) * (bits + 1)
  pub mul-le :
      (x y : Number) → units (mul x y) * one * bits ≤ units x * units y * (bits + 1) + one * bits
  pub div-le :
      (x y : Number)
      → units (div x y) * units y * bits ≤ units x * one * (bits + 1) + units y * bits
  pub reread-le : (x : Number) → units (reread x) * digits ≤ units x * (digits + 1)

pub div-mul : (a b : ℕ) → a / b * b ≤ a
div-mul a b = grind arith

pub div_one : (a : ℕ) → a / 1 ≡ a
div_one a = omega arith

-- 10 ^ 30.
abbrev pub grains : ℕ
grains = 1000000000000000000000000000000

pub div_rounds : (x y : ℕ) → x * grains / y * y * bits ≤ x * grains * (bits + 1) + y * bits
div_rounds x y = omega (arith, div-mul (x * grains) y)

pub mul_rounds : (x y : ℕ) → x * y / grains * grains * bits ≤ x * y * (bits + 1) + grains * bits
mul_rounds x y = omega (arith, div-mul (x * y) grains)

-- The laws can be met: whole grains, with results rounded down.
abbrev pub exact : Lua
exact = record {
  Number = ℕ;
  of = λ n. n * grains;
  of_ratio = λ r. r.num * grains / r.den;
  add = λ x y. x + y;
  sub = λ x y. x - y;
  mul = λ x y. x * y / grains;
  div = λ x y. x * grains / y;
  le = leb;
  floor = λ x. x / grains;
  ceil = λ x. (x + (grains - 1)) / grains;
  reread = λ x. x;
  one = grains;
  units = λ x. x;
  one_large = omega arith;
  units-of = λ n h. refl;
  of_ratio-whole = λ n h. div_one (n * grains);
  le-units = λ x y. refl;
  add-ge = λ x y. omega arith;
  add-le = λ x y. omega arith;
  sub-le = λ x y h. omega arith;
  mul-le = mul_rounds;
  div-le = div_rounds;
  reread-le = λ x. omega arith;
}
