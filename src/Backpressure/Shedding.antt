-- ===== src/Backpressure/Shedding.antt =====
-- Which traffic the load shedder gives up first.
use sentinel_distributed_api.Prelude.{ℕ, ◌≤◌, ◌≡◌, ◌≢◌, true, arith}
use sentinel_distributed_api.Backpressure.{Priority, low, normal, high, LoadShedder, should_shed}

abbrev pub rank : Priority → ℕ
rank low = 0
rank normal = 1
rank high = 2

-- With the watermarks in order, shedding a priority means shedding every lower one, at every higher
-- load; HIGH is never shed.
pub should_shed_monotone :
    (s : LoadShedder) (p q : Priority) (load more : ℕ)
    → s.high_watermark_low ≤ s.high_watermark_normal
    → load ≤ more
    → rank q ≤ rank p
    → should_shed s p load ≡ true
    → (should_shed s q more ≡ true) × (p ≢ high)
unfolding should_shed
should_shed_monotone s low low load more o m r h = ground arith
should_shed_monotone s low normal load more o m r h = absurd (omega arith)
should_shed_monotone s low high load more o m r h = absurd (omega arith)
should_shed_monotone s normal low load more o m r h = ground arith
should_shed_monotone s normal normal load more o m r h = ground arith
should_shed_monotone s normal high load more o m r h = absurd (omega arith)
should_shed_monotone s high q load more o m r h = cc
