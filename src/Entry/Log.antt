-- ===== src/Entry/Log.antt =====
-- The log lines of a proxied request: that of apps/gateway/main.py on its end, and that of
-- packages/redis/client.py when Redis did not serve its check. The texts of numbers and of the time
-- are parameters.
pub mod Concealed
pub mod Examples
use sentinel_distributed_api.Prelude.{
  ℕ, String, Bool, true, false, Option, none, some, List, [], ◌∷◌, ◌++◌, ltb, if◌then◌else◌,
  or_text, map,
}
use sentinel_distributed_api.RateLimit.{
  Redis, RedisFailureMode, fail_open, fail_closed, RateLimitDecision, check_token_bucket,
}
use sentinel_distributed_api.Router.{RouteDefinition, match}
use sentinel_distributed_api.Gateway.{Gateway, PipelineResult, Outcome, finished, raised}
use sentinel_distributed_api.Pipeline.{Request, Pipeline, Surroundings}
use sentinel_distributed_api.Settings.{Settings}
use sentinel_distributed_api.Metrics.{Metrics}
use sentinel_distributed_api.Logging.{
  Fields, no_fields, field, leaf, LogRecord, Extra, other_fields, process, make_record, format,
}
use sentinel_distributed_api.Entry.{
  HttpRequest, request_id_of, tenant_id_of, failure_mode_of, to_request, proxy,
}

-- `failure_mode.value`.
abbrev value : RedisFailureMode → String
value fail_open = "FAIL_OPEN"
value fail_closed = "FAIL_CLOSED"

-- `None` is written as `null`.
abbrev or_null : Option String → String
or_null stage = or_text stage "null"

-- `logger.error("rate_limiter.redis_unavailable", ...)` of `_degraded_decision`, on a logger that is
-- no `_ExtraAdapter`.
unfoldable pub redis_unavailable : String → String → RedisFailureMode → LogRecord
unfolding make_record
redis_unavailable timestamp key mode =
    make_record timestamp "ERROR" "sentinel.ratelimit" "rate_limiter.redis_unavailable" (
      some (
        other_fields (field "key" (leaf key) (field "failure_mode" (leaf (value mode)) no_fields))))

-- `show` is the text of a status code, `duration_ms` that of the rounded duration.
module _ (show : ℕ → String) (timestamp duration_ms : String) where
  unfoldable pub request_completed : String → HttpRequest → PipelineResult → LogRecord
  unfolding make_record process request_id_of tenant_id_of
  request_completed new_request_id q r =
      make_record timestamp "INFO" "sentinel.gateway" "request.completed" (
        process (
          some (
            field "request_id" (leaf (request_id_of new_request_id q)) (
              field "tenant_id" (leaf (tenant_id_of q)) (
                field "method" (leaf q.method) (
                  field "status_code" (leaf (show r.status_code)) (
                    field "duration_ms" (leaf duration_ms)
                      (field "stage_failed" (leaf (or_null r.stage_failed)) no_fields))))))))

  completed_line : String → HttpRequest → Outcome → List LogRecord
  unfolding request_completed
  completed_line new_request_id q (finished r) = request_completed new_request_id q r ∷ []
  completed_line new_request_id q raised = []

module _ (redis : Redis) (pipeline : Pipeline) (around : Surroundings) (checked_at : String)
    (q : Request) where
  -- What the check of the limiter writes, if there is a route to check for.
  unfoldable pub serve_lines : Option RouteDefinition → redis.Store → List LogRecord
  unfolding redis_unavailable check_token_bucket
  serve_lines none store = []
  serve_lines (some route) store =
      let (d, store') =
        check_token_bucket redis around.link q.rate_limit_key q.rate_limit_policy around.now_ms
          store in
      if d.degraded
      then redis_unavailable checked_at q.rate_limit_key q.rate_limit_policy.failure_mode ∷ []
      else []

  unfoldable pub handle_lines : redis.Store → List LogRecord
  unfolding serve_lines
  handle_lines store =
      if ltb pipeline.max_body_size_bytes q.body_size
      then []
      else serve_lines (match pipeline.routes q.tenant_id q.method q.path) store

module _ (show : ℕ → String) (checked_at completed_at duration_ms : String) (redis : Redis)
    (s : Settings) (pipeline : Pipeline) (around : Surroundings) (meanwhile : Metrics → Metrics)
    (new_request_id : String) (duration : ℕ) (q : HttpRequest) where
  open redis use {Store}

  lines_in_mode : Option RedisFailureMode → Metrics → Gateway → Store → List LogRecord
  unfolding handle_lines completed_line to_request proxy
  lines_in_mode none m g store = []
  lines_in_mode (some mode) m g store =
      handle_lines redis pipeline around checked_at (to_request s new_request_id mode q) store
      ++ completed_line show completed_at duration_ms new_request_id q
          (proxy redis s pipeline around meanwhile new_request_id duration q m g store).0

  -- The lines of a request, as the formatter writes them.
  unfoldable pub proxy_lines : Metrics → Gateway → Store → List Fields
  unfolding lines_in_mode failure_mode_of format
  proxy_lines m g store =
      map format (lines_in_mode (failure_mode_of s.rate_limit_default_fail_mode) m g store)
