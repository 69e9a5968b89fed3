-- ===== src/Logging/Examples.antt =====
-- Extra fields with headers in them.
use sentinel_distributed_api.Prelude.{◌≡◌, refl, String, none, some, str_eq, lower}
use sentinel_distributed_api.Logging.{
  is_redacted, Value, Fields, dictionary, array, leaf, no_fields, field, no_items, item, redact,
  redact_fields, LogRecord, set_field, update, format,
}
use sentinel_distributed_api.Logging.Secrets.{
  dictionaries, leaves, ends, secret, shown, format_hides,
}

abbrev extra : String → Value
extra token = dictionary (
    field "key" (leaf "rl:tenant:acme") (
      field "headers"
        (array (item (dictionary (field "Authorization" (leaf token) no_fields)) no_items))
        no_fields))

hidden : redact (extra "Bearer abc") ≡ extra "***REDACTED***"
unfolding redact is_redacted str_eq lower
hidden = refl

-- An extra field can take the place of the message, and the message itself is written as it is.
abbrev request_failed : LogRecord
request_failed = record {
  timestamp = "t";
  levelname = "INFO";
  message = "Authorization: Bearer abc";
  name = "sentinel.gateway";
  extra_fields = some (field "Cookie" (leaf "c") (field "level" (leaf "x") no_fields));
  exc_info = none;
}

formatted :
    format request_failed
    ≡ field "timestamp" (leaf "t") (
        field "level" (leaf "x") (
          field "message" (leaf "Authorization: Bearer abc") (
            field "logger"
              (leaf "sentinel.gateway")
              (field "Cookie" (leaf "***REDACTED***") no_fields))))
unfolding format update set_field redact_fields is_redacted str_eq lower
formatted = refl

abbrev headers : String → Fields
headers token =
    field "key" (leaf "rl:tenant:acme")
      (field "headers" (dictionary (field "Authorization" (leaf token) no_fields)) no_fields)

format_hides_example :
    format (record request_failed { extra_fields = some (headers "Bearer abc") })
    ≡ format (record request_failed { extra_fields = some (headers "Bearer xyz") })
unfolding is_redacted str_eq lower
format_hides_example =
    (format_hides request_failed (headers "Bearer abc") (headers "Bearer xyz")
      (shown leaves (shown (dictionaries (secret refl ends)) ends))).0
