-- ===== src/Entry/Log/Examples.antt =====
-- The lines of two requests with different tokens, when Redis cannot be reached.
use sentinel_distributed_api.Prelude.{
  ℕ, ◌≡◌, refl, String, none, some, [], ◌∷◌, Option, str_eq, if◌then◌else◌, upper, lower, insert,
  lookup,
}
use sentinel_distributed_api.Glob.{fnmatch}
use sentinel_distributed_api.Router.{match, serves, route_matcher}
use sentinel_distributed_api.RateLimit.{unreachable, check_token_bucket}
use sentinel_distributed_api.RateLimit.Examples.{dict_redis, no_buckets}
use sentinel_distributed_api.Pipeline.{Surroundings, handle, serve, limit, rate_limited}
use sentinel_distributed_api.Pipeline.Examples.{around, pipeline}
use sentinel_distributed_api.Dispatch.Examples.{gateway}
use sentinel_distributed_api.Settings.{default_settings}
use sentinel_distributed_api.Metrics.{no_metrics}
use sentinel_distributed_api.Logging.{
  field, leaf, no_fields, format, update, set_field, redact_fields, is_redacted,
}
use sentinel_distributed_api.Entry.{
  HttpRequest, request_id_of, tenant_id_of, failure_mode_of, to_request, proxy,
}
use sentinel_distributed_api.Entry.Log.{
  redis_unavailable, request_completed, proxy_lines, handle_lines, lines_in_mode, completed_line,
  serve_lines,
}

abbrev sent_by : String → String → Option String
sent_by authorization name =
    if str_eq (lower name) "authorization" then some authorization else none

abbrev with_token : String → HttpRequest
with_token token = record {
  method = "GET";
  full_path = "users/42";
  header = sent_by token;
  body_size = 0;
  header-lower = λ a b same. rw same refl;
}

-- Numbers are written as a text that tells none of them.
abbrev show : ℕ → String
show n = "n"

abbrev cut_off : Surroundings
cut_off = record around { link = unreachable }

two_lines :
    proxy_lines show "t1" "t2" "0.12" dict_redis default_settings pipeline cut_off
      (λ m. m)
      "r-1"
      5
      (with_token "Bearer k1")
      no_metrics
      gateway
      no_buckets
    ≡ field "timestamp" (leaf "t1") (
        field "level" (leaf "ERROR") (
          field "message"
            (leaf "rate_limiter.redis_unavailable")
            (field "logger" (leaf "sentinel.ratelimit") no_fields)))
      ∷ field "timestamp" (leaf "t2") (
          field "level" (leaf "INFO") (
            field "message" (leaf "request.completed") (
              field "logger" (leaf "sentinel.gateway") (
                field "request_id" (leaf "r-1") (
                  field "tenant_id" (leaf "default") (
                    field "method" (leaf "GET") (
                      field "status_code" (leaf "n") (
                        field "duration_ms"
                          (leaf "0.12")
                          (field "stage_failed" (leaf "rate_limit") no_fields)))))))))
      ∷ []
unfolding proxy_lines lines_in_mode handle_lines completed_line serve_lines request_completed
    redis_unavailable format update set_field redact_fields is_redacted lower proxy failure_mode_of
    to_request request_id_of tenant_id_of handle match serve limit check_token_bucket rate_limited
    fnmatch lookup insert str_eq upper serves route_matcher
two_lines = refl
