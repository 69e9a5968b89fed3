-- ===== src/Entry/Examples.antt =====
-- The gateway started from infra/docker/routes.yaml with the default settings, and requests to it.
use sentinel_distributed_api.Prelude.{
  strip, lower, false, str_eq_iff, removeprefix, ◌≡◌, refl, String, true, Option, none, some, List,
  [], ◌∷◌, arith, lookup, insert, upper, str_eq, if◌then◌else◌, replicate, length,
}
use sentinel_distributed_api.Glob.{fnmatch}
use sentinel_distributed_api.Router.{match, serves, route_matcher}
use sentinel_distributed_api.RateLimit.{fail_closed, served, check_token_bucket}
use sentinel_distributed_api.RateLimit.Examples.{dict_redis, no_buckets}
use sentinel_distributed_api.Gateway.{finished, error_result}
use sentinel_distributed_api.Pipeline.{handle, serve, route_not_found, Surroundings}
use sentinel_distributed_api.Pipeline.Examples.{around, pipeline}
use sentinel_distributed_api.Dispatch.Examples.{gateway, world, refused_once}
use sentinel_distributed_api.Breaker.{opened}
use sentinel_distributed_api.Gateway.{World, breaker_for, responds, response_result}
use sentinel_distributed_api.Dispatch.Unrouted.{dispatch_all}
use sentinel_distributed_api.Bootstrap.Document.{loaded, ◌>>=◌}
use sentinel_distributed_api.Bootstrap.Examples.{users, users_1, routes, services, file, loads}
use mathlib.Core.List.{reverse, reverse_perm}
use sentinel_distributed_api.Health.{answered}
use sentinel_distributed_api.Entry.Serves.{warmed, serves_after_warm_up}
use sentinel_distributed_api.Entry.ColdStart.{cold_start_opens}
use sentinel_distributed_api.Settings.{default_settings}
use sentinel_distributed_api.Metrics.{no_metrics}
use sentinel_distributed_api.Lifespan.{Started, started, start as start_gateway}
use sentinel_distributed_api.Entry.{
  retry_policy, HttpRequest, api_key_of, rate_limit_key, or_anonymous, request_id_of, route_label,
  first_segment, tenant_id_of, failure_mode_of, to_request, proxy,
}
use sentinel_distributed_api.Entry.Isolation.{proxy_isolates, new_key_admitted}
use sentinel_distributed_api.Entry.Correlation.{Correlated, proxy-Correlated}

-- A client that sends a bearer token.
abbrev sent_by : String → String → Option String
sent_by authorization name =
    if str_eq (lower name) "authorization" then some authorization else none

abbrev request_by : String → HttpRequest
request_by authorization = record {
  method = "GET";
  full_path = "nowhere/42";
  header = sent_by authorization;
  body_size = 0;
  header-lower = λ a b same. rw same refl;
}

bearer : api_key_of (request_by "Bearer  k1 ") ≡ "k1"
unfolding api_key_of strip removeprefix str_eq lower
bearer = refl

no_bearer : rate_limit_key (request_by " ") ≡ "rl:apikey:anonymous"
unfolding rate_limit_key api_key_of strip removeprefix or_anonymous str_eq lower
no_bearer = refl

labels : (route_label "users/42" ≡ "users") × (route_label "/x" ≡ "root")
unfolding route_label first_segment str_eq
labels = (refl, refl)

keys_differ : str_eq (rate_limit_key (request_by "Bearer k1")) "rl:apikey:k2" ≡ false
unfolding rate_limit_key api_key_of strip removeprefix or_anonymous str_eq lower
keys_differ = refl

-- Before the token `k1` is seen, its bucket and that of `k2` are not there.
proxy_isolates_example :
    dict_redis.hmget "rl:apikey:k2"
      (proxy dict_redis default_settings pipeline around
        (λ m. m)
        "r-1"
        5
        (request_by "Bearer k1")
        no_metrics
        gateway
        no_buckets).1.2
    ≡ dict_redis.hmget "rl:apikey:k2" no_buckets
proxy_isolates_example =
    proxy_isolates dict_redis default_settings pipeline around (λ m. m) "r-1" 5
      (request_by "Bearer k1") "rl:apikey:k2" no_metrics gateway no_buckets
      (ground
        (arith, str_eq_iff (rate_limit_key (request_by "Bearer k1")) "rl:apikey:k2", keys_differ))

new_key_admitted_example :
    let p = to_request default_settings "r-2" fail_closed (request_by "Bearer k2") in
    let after =
      (proxy dict_redis default_settings pipeline around
        (λ m. m)
        "r-1"
        5
        (request_by "Bearer k1")
        no_metrics
        gateway
        no_buckets).1.2 in
    (check_token_bucket dict_redis served p.rate_limit_key p.rate_limit_policy 7 after).0.allowed
    ≡ true
unfolding to_request
new_key_admitted_example =
    new_key_admitted dict_redis default_settings pipeline around (λ m. m) "r-1" 5
      (request_by "Bearer k1") (request_by "Bearer k2") fail_closed 7 no_metrics gateway no_buckets
      (unfold api_key_of strip removeprefix or_anonymous str_eq lower in λ e. cc) refl

not_found :
    (proxy dict_redis default_settings pipeline around
      (λ m. m)
      "r-1"
      5
      (request_by "Bearer k1")
      no_metrics
      gateway
      no_buckets).0
    ≡ finished
        (error_result 404 "r-1" "{\"error\":{\"code\":\"ROUTE_NOT_FOUND\"}}" "route_matching")
unfolding proxy failure_mode_of to_request request_id_of tenant_id_of handle match serve
    route_not_found fnmatch lookup insert str_eq lower upper serves route_matcher
not_found = refl

proxy-Correlated_example :
    Correlated around.world.reply
      (request_id_of "r-1" (request_by "Bearer k1"))
      (error_result 404 "r-1" "{\"error\":{\"code\":\"ROUTE_NOT_FOUND\"}}" "route_matching")
proxy-Correlated_example =
    proxy-Correlated dict_redis default_settings pipeline around (λ m. m) "r-1" 5
      (request_by "Bearer k1") no_metrics gateway no_buckets _ not_found

-- The gateway of infra/docker/routes.yaml, and its first 20 requests.
abbrev at_start : Started
unfolding started
at_start = started default_settings (routes, services)

starts : start_gateway default_settings file ≡ loaded at_start
unfolding start_gateway at_start ◌>>=◌
starts = rw loads refl

abbrev twenty : List World
twenty = replicate 20 (world 0 refused_once)

cold_start_opens_example :
    let r =
      dispatch_all "r-1" "GET" users (retry_policy default_settings) twenty at_start.gateway in
    (r.1 ≡ []) × ((breaker_for "users-service" r.0).state ≡ opened)
cold_start_opens_example =
    cold_start_opens default_settings file at_start "r-1" "GET" users twenty starts (omega arith)
      (omega arith)

-- The backend answers the first attempt.
abbrev answering : Surroundings
answering = record around {
  world = record (world 0 (λ n. responds 200 (("content-type", "text/plain") ∷ []) "user 42")) {
    shuffle = reverse;
  };
}

abbrev for_user : HttpRequest
for_user = record (request_by "Bearer k1") { full_path = "users/42" }

serves_after_warm_up_example :
    let r =
      proxy dict_redis default_settings
        (started default_settings (routes, services)).pipeline
        answering
        (λ m. m)
        "r-1"
        5
        for_user
        no_metrics
        (warmed default_settings routes services
          ((λ s n. answered 200) ∷ (λ s n. answered 204) ∷ []))
        no_buckets in
    (r.0
      ≡ finished (
          response_result
            (request_id_of "r-1" for_user)
            200
            (("content-type", "text/plain") ∷ [])
            "user 42"))
    × (length r.2 ≡ 1)
serves_after_warm_up_example =
    serves_after_warm_up dict_redis default_settings answering (λ m. m) "r-1" 5 for_user file routes
      services ((λ s n. answered 200) ∷ (λ s n. answered 204) ∷ []) fail_closed no_metrics
      no_buckets users users_1 [] 200 (("content-type", "text/plain") ∷ []) "user 42" loads
      (unfold lookup str_eq in refl) (λ s n. refl, (λ s n. refl, _)) (omega arith) (omega arith)
      (unfold failure_mode_of str_eq in refl) (omega arith)
      (unfold match route_matcher lookup insert serves fnmatch str_eq lower upper tenant_id_of in
        refl)
      refl refl refl (omega arith) (omega arith) (omega arith) (omega arith) (omega arith) refl
      (omega arith) (omega arith) reverse_perm
