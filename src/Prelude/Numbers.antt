-- ===== src/Prelude/Numbers.antt =====
-- A non-negative float of the configuration (a rate, a threshold), written as a fraction.
use Prim.Native.Nat.{ℕ}

pub record Ratio : Type 0 where
  pub num : ℕ
  pub den : ℕ
