-- ===== src/Demo/Examples.antt =====
-- The users service killed and restored, and the theorems applied to it.
use sentinel_distributed_api.Prelude.{◌≡◌, refl, [], ◌∷◌, arith, Ratio}
use sentinel_distributed_api.Router.{BackendInstance, unhealthy, unknown}
use sentinel_distributed_api.Health.{answered, Thresholds}
use sentinel_distributed_api.Health.Streaks.{polls}
use sentinel_distributed_api.Demo.{
  initial, service_app, kill, answer, users, detail, get_call, list_call, error_rate_call,
  users_service, payments_service, maybe_misbehave,
}
use sentinel_distributed_api.Demo.Detection.{Calls, polled, kill_detected}

abbrev half : Ratio
half = record { num = 1; den = 2 }

abbrev third : Ratio
third = record { num = 1; den = 3 }

abbrev thresholds : Thresholds
thresholds = record { failure_threshold = 3; success_threshold = 2 }

abbrev users_1 : BackendInstance
users_1 = record {
  id = "users-1";
  host = "demo-users";
  port = 9001;
  weight = 1;
  status = unknown;
  failure_count = 0;
}

-- The list of payments comes under the key `users`.
payments_list :
    (payments_service half list_call initial).0 ≡ answer 200 (users (1 ∷ 2 ∷ 3 ∷ 4 ∷ 5 ∷ [])) 0
unfolding payments_service maybe_misbehave
payments_list = refl

injected :
    (users_service third (get_call "42") (users_service half (error_rate_call half) initial).1).0
    ≡ answer 503 (detail "injected failure") 0
unfolding users_service service_app maybe_misbehave
injected = refl

-- A call between two polls.
abbrev one_call : Calls
one_call = (third, get_call "42") ∷ []

kill_detected_example :
    (polls thresholds users_1 (
      polled "users-service"
        (one_call ∷ [] ∷ one_call ∷ [])
        (kill initial).1
        (answered 200 ∷ []))).1.status
    ≡ unhealthy
kill_detected_example =
    kill_detected "users-service" thresholds users_1 initial (answered 200 ∷ [])
      (one_call ∷ [] ∷ one_call ∷ []) (omega arith) ((refl, _), (_, ((refl, _), _))) (omega arith)
