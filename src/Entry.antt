-- ===== src/Entry.antt =====
-- `proxy` of apps/gateway/main.py: what one request to `/proxy/...` does; its log lines are in
-- Entry/Log. The framework's parts are parameters: the look-up of a header, the new request id and
-- the duration of a request. Not modelled: the text of `/metrics`.
pub mod ColdStart
pub mod Isolation
pub mod Rate
pub mod Serves
pub mod Accounts
pub mod Correlation
pub mod Log
pub mod Examples
use Prim.Native.Char.{Char, code}
use Prim.Native.String.{◌++◌}
use sentinel_distributed_api.Prelude.{
  strip, removeprefix, or_text, ℕ, String, Bool, true, false, not, ◌||◌, ◌&&◌, Option, none, some,
  List, [], ◌∷◌, leb, ◌==◌, if◌then◌else◌, Dict, str_eq, Ratio, lower, ◌≡◌,
}
use sentinel_distributed_api.Retry.{RetryPolicy, default_policy}
use sentinel_distributed_api.Router.{
  BackendInstance, RouteDefinition, route_matcher, fresh_selector,
}
use sentinel_distributed_api.RateLimit.{
  RedisFailureMode, fail_open, fail_closed, TokenBucketPolicy, Redis,
}
use sentinel_distributed_api.Backpressure.{ConcurrencyLimits, new_manager}
use sentinel_distributed_api.Health.{Thresholds}
use sentinel_distributed_api.Gateway.{Gateway, Attempt, PipelineResult, Outcome, finished, raised}
use sentinel_distributed_api.Pipeline.{Pipeline, Request, Surroundings, handle}
use sentinel_distributed_api.Bootstrap.Document.{Result, loaded, ◌>>=◌}
use sentinel_distributed_api.Bootstrap.{ConfigFile, load_routes_and_backends}
use sentinel_distributed_api.Settings.{Settings}
use sentinel_distributed_api.Metrics.{Metrics, inc_gauge, dec_gauge, observe, inc_series}

-- A request as the framework hands it over; `header` is `request.headers.get`, which reads the name
-- of a header without regard to case.
pub record HttpRequest : Type 0 where
  pub method : String
  pub full_path : String
  pub header : String → Option String
  pub body_size : ℕ
  pub header-lower : (a b : String) → lower a ≡ lower b → header a ≡ header b

abbrev or_new : Option String → String → String
or_new none new = new
or_new (some t) new = if str_eq t "" then new else t

-- `request.headers.get("X-Request-ID") or new_request_id()`.
unfoldable pub request_id_of : String → HttpRequest → String
request_id_of new_request_id q = or_new (q.header "X-Request-ID") new_request_id

unfoldable pub tenant_id_of : HttpRequest → String
tenant_id_of q = or_text (q.header "X-Tenant-ID") "default"

unfoldable pub api_key_of : HttpRequest → String
unfolding strip removeprefix
api_key_of q = strip (removeprefix "Bearer " (or_text (q.header "Authorization") ""))

unfoldable pub or_anonymous : String → String
or_anonymous api_key = if str_eq api_key "" then "anonymous" else api_key

unfoldable pub rate_limit_key : HttpRequest → String
unfolding or_anonymous api_key_of
rate_limit_key q = "rl:apikey:" ++ or_anonymous (api_key_of q)

-- `RedisFailureMode(...)`; `none` is its `ValueError`.
unfoldable pub failure_mode_of : String → Option RedisFailureMode
failure_mode_of s =
    if str_eq s "FAIL_OPEN"
    then some fail_open
    else if str_eq s "FAIL_CLOSED"
    then some fail_closed
    else none

unfoldable pub rate_limit_policy : RedisFailureMode → TokenBucketPolicy
rate_limit_policy mode = record {
  capacity = 100;
  refill_rate = record { num = 100; den = 1 };
  cost = 1;
  ttl_seconds = 3600;
  failure_mode = mode;
}

unfoldable pub retry_policy : Settings → RetryPolicy
retry_policy s = record default_policy {
  max_attempts = s.retry_max_attempts;
  base_backoff_ms = s.retry_base_backoff_ms;
  total_deadline_ms = s.retry_total_deadline_ms;
}

-- What `handle` is called with.
unfoldable pub to_request : Settings → String → RedisFailureMode → HttpRequest → Request
unfolding request_id_of tenant_id_of rate_limit_key rate_limit_policy retry_policy
to_request s new_request_id mode q = record {
  request_id = request_id_of new_request_id q;
  tenant_id = tenant_id_of q;
  method = q.method;
  path = "/" ++ q.full_path;
  body_size = q.body_size;
  rate_limit_policy = rate_limit_policy mode;
  rate_limit_key = rate_limit_key q;
  retry_policy = retry_policy s;
}

-- `full_path.split("/")[0]`.
unfoldable pub first_segment : String → String
first_segment String.[] = String.[]
first_segment (String.◌∷◌ c s) =
    let rest = first_segment s in if code c == b'/' then String.[] else String.◌∷◌ c rest

unfoldable pub route_label : String → String
unfolding first_segment
route_label full_path = let s = first_segment full_path in if str_eq s "" then "root" else s

-- The metrics before `handle`, after it, and at the end of a request that it answered.
unfoldable pub count_in : Metrics → Metrics
count_in m = record m { requests_in_flight = inc_gauge m.requests_in_flight }

unfoldable pub count_out : Metrics → Metrics
count_out m = record m { requests_in_flight = dec_gauge m.requests_in_flight }

unfoldable pub complete : String → ℕ → ℕ → Metrics → Metrics
unfolding observe inc_series route_label
complete full_path status duration m = record m {
  request_duration = observe (route_label full_path) duration m.request_duration;
  requests_total =
      inc_series (record { route = route_label full_path; status = status }) m.requests_total;
}

unfoldable pub record_outcome : String → ℕ → Outcome → Metrics → Metrics
unfolding complete
record_outcome full_path duration (finished r) m = complete full_path r.status_code duration m
record_outcome full_path duration raised m = m

module _ (redis : Redis) (s : Settings) (pipeline : Pipeline) (around : Surroundings)
    (meanwhile : Metrics → Metrics) (new_request_id : String) (duration : ℕ) (q : HttpRequest) where
  open redis use {Store}

  abbrev pub Proxied : Type 0
  Proxied = Outcome × (Metrics × Gateway × Store) × List Attempt

  proxy_in_mode : Option RedisFailureMode → Metrics → Gateway → Store → Proxied
  unfolding count_in count_out record_outcome to_request handle
  proxy_in_mode none m g store = (raised, (m, g, store), [])
  proxy_in_mode (some mode) m g store =
      let (o, (g', store'), sent) =
        handle redis pipeline around (to_request s new_request_id mode q) g store in
      (
        o,
        (record_outcome q.full_path duration o (count_out (meanwhile (count_in m))), g', store'),
        sent,
      )

  -- `proxy`; `meanwhile` is what other requests do to the metrics while `handle` runs.
  unfoldable pub proxy : Metrics → Gateway → Store → Proxied
  unfolding proxy_in_mode failure_mode_of
  proxy m g store = proxy_in_mode (failure_mode_of s.rate_limit_default_fail_mode) m g store
