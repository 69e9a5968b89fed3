-- ===== src/Lib.antt =====
-- A verification library of the Sentinel gateway, the data plane under apps/gateway with its rate
-- limiter under packages/redis, of the tenants of the control plane and of the demo services.
--
-- The gateway starts from its settings and a configuration file (Lifespan, Settings, Bootstrap). A
-- request to `/proxy/...` (Entry) is counted (Metrics), gets its id and its rate limit key, and
-- goes through `GatewayPipeline.handle` (Pipeline): its size, its route (Router, Glob), the token
-- bucket in Redis (RateLimit), the gates for global, tenant, route and backend concurrency
-- (Backpressure), and then the attempts of `_dispatch_with_resilience` (Dispatch), each of which
-- asks the circuit breaker of the service (Breaker), chooses an instance (Router), reads the
-- deadline and calls the forwarder; a failed attempt is retried by the rules of Retry. Apart from
-- requests the health checker (Health) sets the status that the choice of an instance reads.
--
-- The files, and the sources they model:
-- - Prelude: numbers, texts, lists and dictionaries that the others share.
-- - Breaker: apps/gateway/circuitbreaker/breaker.py. `refresh` is the property `state`,
--   `before_request`, `record_success` and `record_failure` are the methods of the same names, and
--   `step` and `run` any sequence of calls. Readings of the clock are arguments.
-- - Retry: apps/gateway/retry/policy.py.
-- - Router and Glob: apps/gateway/routing/router.py and the patterns of `fnmatch.fnmatch` it uses.
-- - RateLimit: packages/redis/client.py and packages/redis/lua/token_bucket.lua; RateLimit/Sliding
--   is its sliding window, with packages/redis/lua/sliding_window.lua. RateLimit/Number is the
--   interface of the doubles in which the scripts count.
-- - Backpressure: apps/gateway/backpressure/semaphores.py.
-- - Gateway, Dispatch and Pipeline: apps/gateway/pipeline/pipeline.py, its data, the attempts and
--   `handle`.
-- - Forwarder: apps/gateway/proxy/forwarder.py, up to the call of the HTTP client.
-- - Logging: packages/common/logging.py, `_redact`, the adapter and the formatter. The log lines
--   themselves are in Entry/Log and Health/Log.
-- - Health: apps/gateway/health/checker.py.
-- - Bootstrap: apps/gateway/bootstrap.py, on the value that the YAML library gives
--   (Bootstrap/Document).
-- - Settings and Metrics: packages/config/settings.py and apps/gateway/metrics.py.
-- - Lifespan and Entry: apps/gateway/main.py. `started` and `start` are `lifespan` up to its
--   `yield`, `shut_down` is what follows it; `proxy` is the function of that name, `count_in` and
--   `count_out` are the calls of the gauge around `handle`.
-- - ControlPlane: apps/control_plane/main.py, with the tenants of packages/database/models.py.
-- - Schema: packages/database/models.py, its tables and enumerations as values, tested against each
--   other and against the code that has the same defaults.
-- - Demo: the three services under demo-services, as one application by its name.
-- Under each of them, files named for what they prove, and Examples with runs at concrete inputs.
--
-- What is a parameter: the commands of Redis and the expiry of its keys, with their documented
-- effect, and the arithmetic of Lua, with the rounding of doubles; the replies of the
-- forwarder and of the health polls; `random.shuffle`, which permutes, and the draws of the jitter;
-- the readings of the clocks; the look-up of a header and the new id of a request; the database of
-- the control plane, with the constraints of its table; and what other requests do to the shared
-- state at each `await`.
--
-- Bounds: the loop of the dispatch recurs on the attempts that are left, so it needs no fuel. The
-- parser of patterns recurs on the length of the pattern, of which each token takes at least one
-- character. Times are whole microseconds or milliseconds, and numbers have no bound, as in Python.
-- The threshold of the breaker, a float, is taken as an exact fraction.
--
-- Not modelled: the web framework around the entry points, the log lines of start and shutdown, the
-- reading of settings from the environment, the metrics that no code uses, the relationships between
-- tables and the timestamps of rows. In the limiter, keys that Redis loses before they expire; in the
-- gates, the
-- order in which waiting requests are served; in the health checker, changes of an instance during
-- its poll. The cancellation of a request at an `await` is an exception that
-- no handler catches; it is left out at the check of the rate limiter.
mod Prelude
pub mod Breaker
pub mod Retry
pub mod Glob
pub mod Router
pub mod RateLimit
pub mod Backpressure
pub mod Gateway
pub mod Dispatch
pub mod Pipeline
pub mod Forwarder
pub mod Health
pub mod Logging
pub mod Bootstrap
pub mod Settings
pub mod Metrics
pub mod Lifespan
pub mod Entry
pub mod ControlPlane
pub mod Schema
pub mod Demo
