-- ===== src/Metrics.antt =====
-- The three metrics of apps/gateway/metrics.py that code changes; the others are declared there and
-- never used. A gauge is its `inc` and `dec` calls counted, since a gauge may go below 0. A histogram
-- keeps its observations, and the series of a counter are listed as they were first used.
use sentinel_distributed_api.Prelude.{
  ℕ, ◌+◌, String, Bool, ◌&&◌, Option, none, some, List, [], ◌∷◌, ◌++◌, ◌==◌, str_eq, if◌then◌else◌,
  Dict, insert, lookup,
}

pub record Gauge : Type 0 where
  pub incs : ℕ
  pub decs : ℕ

-- The labels of `REQUESTS_TOTAL`.
pub record Labels : Type 0 where
  pub route : String
  pub status : ℕ

pub record Metrics : Type 0 where
  pub requests_in_flight : Gauge
  pub request_duration : Dict (List ℕ)
  pub requests_total : List (Labels × ℕ)

abbrev pub no_metrics : Metrics
no_metrics = record {
  requests_in_flight = record { incs = 0; decs = 0 };
  request_duration = [];
  requests_total = [];
}

abbrev pub inc_gauge : Gauge → Gauge
inc_gauge g = record g { incs = g.incs + 1 }

abbrev pub dec_gauge : Gauge → Gauge
dec_gauge g = record g { decs = g.decs + 1 }

abbrev pub or_none : Option (List ℕ) → List ℕ
or_none none = []
or_none (some xs) = xs

-- `REQUEST_DURATION.labels(route=route).observe(duration)`.
unfoldable pub observe : String → ℕ → Dict (List ℕ) → Dict (List ℕ)
observe route duration d = insert route (or_none (lookup route d) ++ duration ∷ []) d

abbrev pub same_labels : Labels → Labels → Bool
same_labels a b = str_eq a.route b.route && a.status == b.status

-- `REQUESTS_TOTAL.labels(...).inc()`.
unfoldable pub inc_series : Labels → List (Labels × ℕ) → List (Labels × ℕ)
inc_series l [] = (l, 1) ∷ []
inc_series l ((k, n) ∷ rest) =
    let later = inc_series l rest in if same_labels k l then (k, n + 1) ∷ rest else (k, n) ∷ later
