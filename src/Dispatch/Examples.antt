-- ===== src/Dispatch/Examples.antt =====
-- Dispatches to a service of one instance, and the theorems applied to them.
use mathlib.Core.List.{Memᴰ, reverse, reverse_perm}
use mathlib.Core.Logic.{∥∥₁_elim}
use sentinel_distributed_api.Prelude.{
  Bool, String, ◌⊎◌, inl, inr, All, if◌then◌else◌, ℕ, zero, suc, lookup, insert, str_eq, upper, ◌≡◌,
  refl, true, false, some, [], ◌∷◌, length,
}
use sentinel_distributed_api.Retry.{
  in_kinds, is_retryable, classify_http_status, compute_backoff, has_budget_for, remaining,
  default_policy, is_idempotent, start_deadline,
}
use sentinel_distributed_api.Router.{
  BackendInstance, healthy, draining, RouteDefinition, fresh_selector, select,
}
use sentinel_distributed_api.Router.RoundRobin.{fresh_selector-IsValid}
use sentinel_distributed_api.Breaker.{
  refresh, record_failure, record_success, append_bounded, CircuitBreaker, opened, init,
  default_config, before_request,
}
use sentinel_distributed_api.Backpressure.{new_manager, default_limits}
use sentinel_distributed_api.Gateway.{
  World, Gateway, Reply, responds, connect_error, finished, response_result,
}
use sentinel_distributed_api.Dispatch.{dispatch}
use sentinel_distributed_api.Dispatch.Retries.{Chain, dispatch-Chain}
use sentinel_distributed_api.Dispatch.Targets.{SafeFor, UpAt, dispatch-Sent}
use sentinel_distributed_api.Dispatch.Outcomes.{Explained, dispatch-Explained}

abbrev pub users : RouteDefinition
users = record {
  id = "route-users";
  tenant_id = "default";
  name = "users";
  path_pattern = "/users/*";
  http_methods = "GET" ∷ "POST" ∷ [];
  backend_service_id = "users-service";
  timeout_ms = 1500;
  priority = "HIGH";
  enabled = true;
}

abbrev backend : BackendInstance
backend = record {
  id = "users-1";
  host = "users";
  port = 8001;
  weight = 1;
  status = healthy;
  failure_count = 0;
}

-- Nobody else acts, and the clock stands at `now`.
abbrev pub world : ℕ → (ℕ → Reply) → World
world now reply = record {
  start = now;
  time = λ n moment. now;
  reply = reply;
  draw = λ n. 0;
  cancelled = λ n. false;
  others = λ n wait g. g;
  shuffle = λ xs. xs;
}

abbrev pub refused_once : ℕ → Reply
refused_once zero = connect_error
refused_once (suc zero) = connect_error
refused_once (suc (suc n)) = responds 200 (("Content-Type", "application/json") ∷ []) "[]"

unfoldable pub gateway : Gateway
unfolding fresh_selector new_manager
gateway = record {
  selector = fresh_selector;
  breakers = [];
  backends_by_service = ("users-service", backend ∷ []) ∷ [];
  concurrency = new_manager default_limits;
}

-- A breaker of the service, opened at 0.
abbrev broken : CircuitBreaker
unfolding init
broken = record (init "users-service" default_config) { state = opened; opened_at = some 0 }

abbrev broken_gateway : Gateway
unfolding gateway broken
broken_gateway = record gateway { breakers = ("users-service", broken) ∷ [] }

retried :
    (dispatch (world 0 refused_once) "r" "GET" users default_policy gateway).0
    ≡ finished (response_result "r" 200 (("Content-Type", "application/json") ∷ []) "[]")
unfolding dispatch gateway before_request init select remaining start_deadline lookup insert str_eq
    response_result is_retryable record_failure append_bounded in_kinds is_idempotent upper
    has_budget_for compute_backoff classify_http_status
retried = refl

paths : length (dispatch (world 0 refused_once) "r" "GET" users default_policy gateway).2 ≡ 2
unfolding dispatch gateway before_request init select remaining start_deadline lookup insert str_eq
    upper is_retryable record_failure append_bounded record_success is_idempotent
    classify_http_status compute_backoff has_budget_for refresh in_kinds response_result
paths = refl

dispatch-Chain_example :
    Chain
      (world 0 refused_once)
      "r"
      "GET"
      users
      default_policy
      (start_deadline 2000 0)
      1
      (dispatch (world 0 refused_once) "r" "GET" users default_policy gateway).2
dispatch-Chain_example =
    dispatch-Chain (world 0 refused_once) "r" "GET" users default_policy gateway

dispatch-Explained_example :
    let (o, g, sent) = dispatch (world 0 refused_once) "r" "GET" users default_policy gateway in
    Explained
      (world 0 refused_once)
      "r"
      "GET"
      users
      default_policy
      (502, "{\"error\":{\"code\":\"BAD_GATEWAY\"}}")
      o
      sent
dispatch-Explained_example =
    dispatch-Explained (world 0 refused_once) "r" "GET" users default_policy gateway

-- A second instance of the service, which is being removed.
abbrev leaving : BackendInstance
leaving = record backend { id = "users-2"; host = "old"; status = draining }

abbrev two_instances : Gateway
unfolding gateway
two_instances = record gateway {
  backends_by_service = ("users-service", backend ∷ leaving ∷ []) ∷ [];
}

abbrev host_of : String → String
host_of id = if str_eq id "users-1" then "users" else "old"

abbrev up : String → ℕ → Bool
up host port = str_eq host "users"

of_two : (i : BackendInstance) → Memᴰ i (backend ∷ leaving ∷ []) → (i ≡ backend) ⊎ (i ≡ leaving)
of_two i (Memᴰ.head e) = inl e
of_two i (Memᴰ.tail (Memᴰ.head e)) = inr e
of_two i (Memᴰ.tail (Memᴰ.tail m)) = elim m [ ]

SafeFor-two_instances : SafeFor host_of (λ id. 8001) up "users-service" two_instances
unfolding str_eq lookup fresh_selector two_instances
SafeFor-two_instances = record {
  valid = fresh_selector-IsValid;
  listed =
      λ i m. ∥∥₁_elim m (hlevel) λ d. elim (of_two i d) [ inl e ↦ rw e refl | inr e ↦ rw e refl ];
  cycle = λ items e. cc;
  up_if_healthy = λ i m h.
      ∥∥₁_elim m (hlevel)
        λ d. elim (of_two i d) [ inl e ↦ rw e refl | inr e ↦ absurd (not_healthy i e h) ];
}
  where
    not_healthy : (i : BackendInstance) → i ≡ leaving → i.status ≡ healthy → ⊥
    not_healthy i e h = cc

dispatch-Sent_example :
    All
      (UpAt host_of (λ id. 8001) up "users-service")
      (dispatch
        (record (world 0 refused_once) { shuffle = reverse })
        "r"
        "GET"
        users
        default_policy
        two_instances).2
dispatch-Sent_example =
    dispatch-Sent host_of (λ id. 8001) up (record (world 0 refused_once) { shuffle = reverse }) "r"
      "GET" users default_policy reverse_perm (λ n w g h. h) two_instances SafeFor-two_instances
