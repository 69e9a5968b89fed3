-- ===== src/Entry/Rate/Examples.antt =====
-- Two requests of one client through the gateway, and the bound on what reaches a backend.
use sentinel_distributed_api.Prelude.{
  ℕ, ◌+◌, refl, String, Option, none, some, str_eq, lower, if◌then◌else◌,
}
use sentinel_distributed_api.Pipeline.Examples.{around, pipeline}
use sentinel_distributed_api.Dispatch.Examples.{gateway}
use sentinel_distributed_api.Metrics.{no_metrics}
use sentinel_distributed_api.Entry.{HttpRequest}
use sentinel_distributed_api.Entry.Rate.{Arrival}

abbrev sent_by : String → String → Option String
sent_by authorization name =
    if str_eq (lower name) "authorization" then some authorization else none

abbrev for_user : HttpRequest
for_user = record {
  method = "GET";
  full_path = "users/42";
  header = sent_by "Bearer k1";
  body_size = 0;
  header-lower = λ a b same. rw same refl;
}

-- At the true time `time`, by a clock that is 3 milliseconds ahead.
abbrev at : ℕ → Arrival
at time = record {
  time = time;
  pipeline = pipeline;
  around = record around { now_ms = time + 3 };
  metrics = no_metrics;
  gateway = gateway;
  meanwhile = λ m. m;
  new_request_id = "r-1";
  duration = 5;
  request = for_user;
}
