-- ===== src/Dispatch/Outage/Examples.antt =====
-- A service that refuses every connection.
use sentinel_distributed_api.Prelude.{
  ◌≤◌, ◌≡◌, refl, [], ◌∷◌, arith, length, replicate, lookup, insert, str_eq, upper,
}
use sentinel_distributed_api.Retry.{
  default_policy, is_retryable, in_kinds, compute_backoff, has_budget_for, remaining, is_idempotent,
  start_deadline,
}
use sentinel_distributed_api.Router.{select}
use sentinel_distributed_api.Breaker.{init, refresh, record_failure, append_bounded, before_request}
use sentinel_distributed_api.Breaker.Failing.{init-Failing}
use sentinel_distributed_api.Gateway.{connect_error, breaker_for}
use sentinel_distributed_api.Dispatch.{dispatch}
use sentinel_distributed_api.Dispatch.Examples.{users, world, gateway}
use sentinel_distributed_api.Dispatch.Outage.Calls.{
  Dispatched, dispatch_each, Struck, dispatch_each-le,
}

abbrev refused : Dispatched
refused = record {
  world = world 7 (λ n. connect_error);
  request_id = "r";
  method = "GET";
  route = users;
  policy = default_policy;
}

-- Each of the first ten requests makes two calls, the others none.
as_many : length (dispatch_each (replicate 12 refused) gateway).0 ≡ 20
unfolding dispatch_each dispatch gateway is_retryable in_kinds compute_backoff has_budget_for
    remaining is_idempotent start_deadline select refresh record_failure append_bounded
    before_request breaker_for lookup insert str_eq upper init
as_many = refl

refused-Struck : Struck 5 10_000_000 "users-service" refused
refused-Struck = record {
  to_service = refl;
  readings = λ n m. omega arith;
  failing = λ n. _;
  others_fail = λ k n w g h. h;
}

dispatch_each-le_example : length (dispatch_each (refused ∷ refused ∷ []) gateway).0 ≤ 20
unfolding gateway breaker_for lookup
dispatch_each-le_example =
    dispatch_each-le 5 10_000_000 "users-service" (refused ∷ refused ∷ []) gateway (omega arith)
      (refused-Struck, (refused-Struck, _)) (init-Failing "users-service")
