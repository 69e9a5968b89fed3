-- ===== src/Entry/Accounts.antt =====
-- What a request does to the metrics.
use sentinel_distributed_api.Prelude.{ℕ, ◌+◌, ◌≡◌, String, List, [], ◌∷◌, if◌then◌else◌}
use sentinel_distributed_api.Gateway.{Gateway, Outcome, finished, raised}
use sentinel_distributed_api.Pipeline.{Pipeline}
use sentinel_distributed_api.Settings.{Settings}
use sentinel_distributed_api.Metrics.{Labels, Metrics, same_labels}
use sentinel_distributed_api.Entry.{route_label}

-- The value of a series, 0 if there is none.
unfoldable pub value : Labels → List (Labels × ℕ) → ℕ
value l [] = 0
value l ((k, n) ∷ rest) = let later = value l rest in if same_labels k l then n else later

-- The labels that an outcome counts.
abbrev pub counts : String → Outcome → Labels → ℕ
counts full_path (finished r) l =
    if same_labels (record { route = route_label full_path; status = r.status_code }) l
    then 1
    else 0
counts full_path raised l = 0

-- The gauge moved as often up as down from `m` to `m'`, and each series grew by `added`.
abbrev pub Settled : (Labels → ℕ) → Metrics → Metrics → Type 0
Settled added m m' =
    (m'.requests_in_flight.incs + m.requests_in_flight.decs
      ≡ m.requests_in_flight.incs + m'.requests_in_flight.decs)
    × ((l : Labels) → value l m'.requests_total ≡ value l m.requests_total + added l)
