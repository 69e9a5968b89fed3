-- ===== src/Gateway.antt =====
-- What a dispatch of apps/gateway/pipeline/pipeline.py works on: the results, the shared state with
-- the breaker of a service (`_breaker_for`), and the world outside, with its clocks, the replies of
-- `ProxyForwarder.forward` and the others that change the shared state.
use sentinel_distributed_api.Prelude.{
  ℕ, String, Bool, true, false, ◌||◌, Option, none, some, List, [], ◌∷◌, ltb, Dict, lookup, insert,
}
use sentinel_distributed_api.Breaker.{CircuitState, opened, CircuitBreaker, init, default_config}
use sentinel_distributed_api.Retry.{success, kind_eq, classify_http_status}
use sentinel_distributed_api.Router.{BackendInstance, Selector}
use sentinel_distributed_api.Backpressure.{ConcurrencyManager}

-- A header value: a text, or `str` of a number.
pub data HeaderValue : Type 0 where
  text : String → HeaderValue
  str_of : ℕ → HeaderValue

pub record PipelineResult : Type 0 where
  pub status_code : ℕ
  pub headers : Dict HeaderValue
  pub body : String
  pub stage_failed : Option String

-- What `forward` does: it returns a response, or raises `ConnectError` or `ConnectTimeout`, another
-- `TimeoutException`, or anything else.
pub data Reply : Type 0 where
  responds : (status_code : ℕ) → (headers : Dict String) → (content : String) → Reply
  connect_error timed_out other_error : Reply

-- The shared state that a dispatch reads and writes.
pub record Gateway : Type 0 where
  pub selector : Selector
  pub breakers : Dict CircuitBreaker
  pub backends_by_service : Dict (List BackendInstance)
  pub concurrency : ConcurrencyManager

-- The points of an attempt at which the clock is read.
pub data Moment : Type 0 where
  asks budgets records opens checks backs_off : Moment

pub data Wait : Type 0 where
  forwarding sleeping : Wait

-- All of it by the number of the attempt, from 1 on. The sleep after an attempt may be `cancelled`.
pub record World : Type 0 where
  pub start : ℕ
  pub time : ℕ → Moment → ℕ
  pub reply : ℕ → Reply
  pub draw : ℕ → ℕ
  pub cancelled : ℕ → Bool
  pub others : ℕ → Wait → Gateway → Gateway
  pub shuffle : List BackendInstance → List BackendInstance

-- `f"{instance.url}{route.path_pattern.rstrip('*')}"`, in its parts.
pub record Target : Type 0 where
  pub host : String
  pub port : ℕ
  pub path : String

-- A call of `forward`; `at` is the clock reading its timeout was computed from.
pub record Attempt : Type 0 where
  pub number : ℕ
  pub target : Target
  pub at : ℕ
  pub per_attempt_timeout : ℕ

-- How a round of the loop ends: in a `return`, an exception, a `break` or the next round, the last
-- two with `last_status` and `last_error_body`.
pub data Ending : Type 0 where
  returns : PipelineResult → Ending
  raises : Ending
  breaks retries : (last_status : ℕ) → (last_error_body : String) → Ending

-- `_breaker_for`.
abbrev pub or_init : String → Option CircuitBreaker → CircuitBreaker
or_init service none = init service default_config
or_init service (some b) = b

unfoldable pub breaker_for : String → Gateway → CircuitBreaker
breaker_for service g = or_init service (lookup service g.breakers)

unfoldable pub set_breaker : String → CircuitBreaker → Gateway → Gateway
set_breaker service b g = record g { breakers = insert service b g.breakers }

abbrev pub is_open : CircuitState → Bool
is_open opened = true
is_open _ = false

unfoldable pub error_result : ℕ → String → String → String → PipelineResult
error_result status_code request_id body stage = record {
  status_code = status_code;
  headers = ("X-Request-ID", text request_id) ∷ [];
  body = body;
  stage_failed = some stage;
}

-- `{"X-Request-ID": request_id, **dict(response.headers)}`.
unfoldable pub merge_headers : Dict HeaderValue → Dict String → Dict HeaderValue
merge_headers d [] = d
merge_headers d ((k, v) ∷ hs) = merge_headers (insert k (text v) d) hs

unfoldable pub response_result : String → ℕ → Dict String → String → PipelineResult
unfolding merge_headers
response_result request_id status_code headers content = record {
  status_code = status_code;
  headers = merge_headers (("X-Request-ID", text request_id) ∷ []) headers;
  body = content;
  stage_failed = none;
}

-- The test on the response: `failure_kind == FailureKind.SUCCESS or status_code < 500`.
unfoldable pub answers : ℕ → Bool
answers status_code = kind_eq (classify_http_status status_code) success || ltb status_code 500

-- What the loop comes to: a result, or an exception that no handler catches.
pub data Outcome : Type 0 where
  finished : PipelineResult → Outcome
  raised : Outcome
