-- ===== src/Pipeline/Examples.antt =====
-- Requests to the service of `Dispatch.Examples`, and the theorems applied to them.
use sentinel_distributed_api.Prelude.{refl, false, [], ◌∷◌}
use sentinel_distributed_api.Retry.{default_policy}
use sentinel_distributed_api.Router.{route_matcher}
use sentinel_distributed_api.RateLimit.{served}
use sentinel_distributed_api.RateLimit.Examples.{dict_redis, policy, no_buckets}
use sentinel_distributed_api.Dispatch.Examples.{users, world, refused_once, gateway}
use sentinel_distributed_api.Dispatch.Concurrency.{Kept}
use sentinel_distributed_api.Pipeline.{Request, Pipeline, Surroundings, handle}
use sentinel_distributed_api.Pipeline.Stages.{CallsOnlyPassed, handle_calls}
use sentinel_distributed_api.Pipeline.Restores.{handle_restores}

abbrev pub pipeline : Pipeline
unfolding route_matcher
pipeline = record { routes = route_matcher (users ∷ []); max_body_size_bytes = 100 }

abbrev pub around : Surroundings
around = record {
  world = world 0 refused_once;
  link = served;
  now_ms = 0;
  checking = λ g. g;
  waited = λ a m. (false, m);
}

abbrev request : Request
request = record {
  request_id = "r";
  tenant_id = "default";
  method = "GET";
  path = "/users/42";
  body_size = 10;
  rate_limit_policy = policy;
  rate_limit_key = "rl:tenant:default";
  retry_policy = default_policy;
}

abbrev large_request : Request
large_request = record request { body_size = 101 }

handle_calls_example :
    CallsOnlyPassed dict_redis pipeline around request gateway no_buckets
      (handle dict_redis pipeline around request gateway no_buckets)
handle_calls_example = handle_calls dict_redis pipeline around request gateway no_buckets

handle_restores_example :
    Kept gateway (handle dict_redis pipeline around request gateway no_buckets).1.0
handle_restores_example =
    handle_restores dict_redis pipeline around request (λ g a. refl) (λ n w g a. refl)
      (λ a m b. refl) gateway no_buckets
