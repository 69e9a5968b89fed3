-- ===== src/Retry/Backoff.antt =====
-- Bounds of the jittered backoff.
use native.Mathlib.Nat.{pow-suc}
use sentinel_distributed_api.Prelude.{ℕ, suc, ◌+◌, ◌-◌, ◌*◌, ◌^◌, ◌≤◌, ◌<◌, ◌≡◌, arith}
use sentinel_distributed_api.Retry.{backoff_ceiling_ms, draws, compute_backoff}

-- Full jitter: a drawn backoff never passes the ceiling, `base * 2 ** (attempt - 1)` milliseconds.
pub compute_backoff-le :
    (attempt base draw : ℕ)
    → draw < draws
    → compute_backoff attempt base draw ≤ 1000 * backoff_ceiling_ms attempt base
unfolding compute_backoff
compute_backoff-le attempt base draw h = grind arith

exponent : (base k m : ℕ) → k ≡ suc m → base * 2 ^ k ≡ 2 * (base * 2 ^ m)
exponent base k m e = rw (e, pow-suc) (grind arith)

-- The ceiling doubles from each attempt to the next, from `base_backoff_ms` at the first.
pub backoff_ceiling_doubles :
    (n base : ℕ)
    → (backoff_ceiling_ms 1 base ≡ base)
      × (backoff_ceiling_ms (n + 2) base ≡ 2 * backoff_ceiling_ms (n + 1) base)
unfolding backoff_ceiling_ms
backoff_ceiling_doubles n base = (omega arith, exponent base (n + 2 - 1) (n + 1 - 1) (omega arith))
