-- ===== src/Entry/Log/Concealed.antt =====
-- What the log lines of a request tell of the token that its client sent.
use sentinel_distributed_api.Prelude.{◌≡◌, String, Bool, true, false, str_eq, lower}
use sentinel_distributed_api.RateLimit.{Link, served}
use sentinel_distributed_api.Gateway.{Gateway}
use sentinel_distributed_api.Pipeline.{Pipeline}
use sentinel_distributed_api.Settings.{Settings}
use sentinel_distributed_api.Metrics.{Metrics}
use sentinel_distributed_api.Entry.{HttpRequest}

-- Two requests that differ at most in the Authorization header.
abbrev pub Alike : HttpRequest → HttpRequest → Type 0
Alike q q' =
    (q.method ≡ q'.method)
    × (q.full_path ≡ q'.full_path)
    × (q.body_size ≡ q'.body_size)
    × ((name : String)
        → str_eq (lower name) "authorization" ≡ false
        → q.header name ≡ q'.header name)

abbrev is_served : Link → Bool
is_served served = true
is_served _ = false
