-- ===== src/Health/Examples.antt =====
-- An instance that fails and comes back, and the theorems applied.
use sentinel_distributed_api.Prelude.{◌≡◌, refl, List, [], ◌∷◌, lookup, insert, str_eq, lower}
use sentinel_distributed_api.Router.{healthy, unknown, BackendInstance}
use sentinel_distributed_api.Health.{
  Answer, answered, http_error, other_error, Thresholds, get, check_instance,
}
use sentinel_distributed_api.Health.Streaks.{polls, findings, Follows}
use sentinel_distributed_api.Health.Log.{
  became_healthy, became_unhealthy, change_record, log_check, lines, told, News, polls_logged,
}
use sentinel_distributed_api.Logging.{
  field, leaf, no_fields, format, update, set_field, redact, redact_fields, is_redacted,
}

abbrev thresholds : Thresholds
thresholds = record { failure_threshold = 3; success_threshold = 2 }

abbrev fresh : BackendInstance
fresh = record {
  id = "users-1";
  host = "users";
  port = 8001;
  weight = 1;
  status = unknown;
  failure_count = 0;
}

two_up :
    (polls thresholds fresh (answered 200 ∷ other_error ∷ answered 404 ∷ [])).1.status ≡ healthy
unfolding polls check_instance get lookup insert str_eq
two_up = refl

one_flaky :
    (polls thresholds fresh (http_error ∷ answered 200 ∷ answered 200 ∷ [])).1.status ≡ healthy
unfolding polls check_instance get lookup insert str_eq
one_flaky = refl

-- Up twice, down three times, and up again.
abbrev flapping : List Answer
flapping =
    answered 200
    ∷ answered 200
    ∷ http_error
    ∷ http_error
    ∷ answered 503
    ∷ answered 200
    ∷ answered 200
    ∷ []

three_lines :
    lines thresholds fresh flapping ≡ became_healthy ∷ became_unhealthy ∷ became_healthy ∷ []
unfolding lines log_check polls check_instance get lookup insert str_eq
three_lines = refl

written :
    format (change_record "t" "users-1" became_unhealthy)
    ≡ field "timestamp" (leaf "t") (
        field "level" (leaf "WARNING") (
          field "message" (leaf "backend.became_unhealthy") (
            field "logger" (leaf "sentinel.health") (field "instance" (leaf "users-1") no_fields))))
unfolding change_record format update set_field redact_fields redact is_redacted str_eq lower
written = refl

polls_logged_example :
    (told unknown (lines thresholds fresh flapping) ≡ (polls thresholds fresh flapping).1.status)
    × News unknown (lines thresholds fresh flapping)
    × Follows thresholds fresh
        (findings flapping)
        (polls thresholds fresh (
          answered 200
          ∷ http_error
          ∷ http_error
          ∷ answered 503
          ∷ answered 200
          ∷ answered 200
          ∷ [])).1.status
        (polls thresholds fresh flapping).1.status
polls_logged_example =
    polls_logged thresholds fresh (answered 200)
      (answered 200 ∷ http_error ∷ http_error ∷ answered 503 ∷ answered 200 ∷ answered 200 ∷ [])
