-- ===== src/Logging.antt =====
-- `_redact`, `JsonFormatter.format` and `_ExtraAdapter` of packages/common/logging.py, and the record
-- that the logging library makes of a call.
-- Keys are texts, as in the extra fields of the gateway. A value that is neither a dictionary nor a
-- list is a leaf, known by its text.
pub mod Shown
pub mod Secrets
pub mod Examples
use sentinel_distributed_api.Prelude.{
  String, Bool, Option, none, some, List, [], ◌∷◌, any, lower, str_eq, if◌then◌else◌,
}

-- `_REDACTED_KEYS`.
abbrev pub redacted_keys : List String
redacted_keys = "authorization" ∷ "cookie" ∷ "api_key" ∷ "api-key" ∷ "x-api-key" ∷ "password" ∷ []

unfoldable pub is_redacted : String → Bool
is_redacted k = any (str_eq (lower k)) redacted_keys

mutual
  pub data Value : Type 0 where
    dictionary : Fields → Value
    array : Items → Value
    leaf : String → Value

  pub data Fields : Type 0 where
    no_fields : Fields
    field : (key : String) → Value → Fields → Fields

  pub data Items : Type 0 where
    no_items : Items
    item : Value → Items → Items

abbrev pub marker : Value
marker = leaf "***REDACTED***"

unfoldable mutual
  unfolding is_redacted

  pub redact : Value → Value
  redact (dictionary fs) = dictionary (redact_fields fs)
  redact (array xs) = array (redact_items xs)
  redact (leaf s) = leaf s

  pub redact_fields : Fields → Fields
  redact_fields no_fields = no_fields
  redact_fields (field k v fs) =
      let v' = redact v in
      let rest = redact_fields fs in field k (if is_redacted k then marker else v') rest

  pub redact_items : Items → Items
  redact_items no_items = no_items
  redact_items (item v xs) = item (redact v) (redact_items xs)

-- The `extra` of a call of the logging library: `{"extra_fields": fields}`, or fields of which none
-- has that name. Each becomes an attribute of the record.
pub data Extra : Type 0 where
  extra_fields_only other_fields : Fields → Extra

-- `_ExtraAdapter.process`, on the `extra` of a call of the adapter.
unfoldable pub process : Option Fields → Option Extra
process none = none
process (some extra) = some (extra_fields_only extra)

-- `getattr(record, "extra_fields", None)`.
unfoldable pub extra_fields_of : Option Extra → Option Fields
extra_fields_of none = none
extra_fields_of (some (extra_fields_only fs)) = some fs
extra_fields_of (some (other_fields fs)) = none

-- What `JsonFormatter.format` reads of a record and of the clock; `exc_info` is the traceback as
-- `formatException` writes it.
pub record LogRecord : Type 0 where
  pub timestamp : String
  pub levelname : String
  pub message : String
  pub name : String
  pub extra_fields : Option Fields
  pub exc_info : Option String

-- The record of a call of a logger, without a traceback.
unfoldable pub make_record : String → String → String → String → Option Extra → LogRecord
unfolding extra_fields_of
make_record timestamp levelname name message extra = record {
  timestamp = timestamp;
  levelname = levelname;
  message = message;
  name = name;
  extra_fields = extra_fields_of extra;
  exc_info = none;
}

-- `payload[key] = value`.
unfoldable pub set_field : String → Value → Fields → Fields
set_field k v no_fields = field k v no_fields
set_field k v (field j w fs) =
    let rest = set_field k v fs in if str_eq j k then field j v fs else field j w rest

-- `payload.update(fields)`.
unfoldable pub update : Fields → Fields → Fields
unfolding set_field
update payload no_fields = payload
update payload (field k v fs) = update (set_field k v payload) fs

abbrev pub with_extra : Option Fields → Fields → Fields
unfolding update redact_fields
with_extra none payload = payload
with_extra (some fs) payload = update payload (redact_fields fs)

abbrev pub with_exception : Option String → Fields → Fields
unfolding set_field
with_exception none payload = payload
with_exception (some text) payload = set_field "exception" (leaf text) payload

-- `JsonFormatter.format`, up to `orjson.dumps`.
unfoldable pub format : LogRecord → Fields
unfolding with_extra with_exception
format r = with_exception r.exc_info (
    with_extra r.extra_fields (
      field "timestamp" (leaf r.timestamp) (
        field "level" (leaf r.levelname)
          (field "message" (leaf r.message) (field "logger" (leaf r.name) no_fields)))))
