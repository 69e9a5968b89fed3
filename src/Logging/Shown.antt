-- ===== src/Logging/Shown.antt =====
-- What is found under a key of a log line.
use sentinel_distributed_api.Prelude.{
  ◌≡◌, inl, inr, refl, ap, sym, ◌∙◌, String, false, Option, none, some, Bool-cases, str_eq,
  str_eq_iff, if◌then◌else◌, arith,
}
use sentinel_distributed_api.Logging.{
  is_redacted, Value, Fields, leaf, no_fields, field, marker, redact, redact_fields, set_field,
  update, LogRecord, format, with_exception,
}

-- The value of a field.
unfoldable pub get_field : String → Fields → Option Value
get_field k no_fields = none
get_field k (field j v fs) = let rest = get_field k fs in if str_eq j k then some v else rest

-- What a line shows of the last field of the key, or else `other`: the marker, or the value with what
-- is redacted inside of it.
unfoldable pub latest_shown : String → Option Value → Fields → Option Value
latest_shown k other no_fields = other
latest_shown k other (field j v fs) =
    latest_shown k (if str_eq j k then some (if is_redacted k then marker else redact v) else other)
      fs

get_field-set_field :
    (k j : String) (v : Value) (fs : Fields)
    → get_field k (set_field j v fs) ≡ (if str_eq j k then some v else get_field k fs)
unfolding get_field set_field
get_field-set_field k j v no_fields = refl
get_field-set_field k j v (field i w fs) = elim (Bool-cases (str_eq i j)) [
  | inl same ↦ ground (arith, same, str_eq_iff i j)
  | inr other ↦
      ground
        (arith, other, str_eq_iff i j, str_eq_iff i k, str_eq_iff j k, get_field-set_field k j v fs)
]

get_field-update :
    (k : String) (fs payload : Fields)
    → get_field k (update payload (redact_fields fs)) ≡ latest_shown k (get_field k payload) fs
unfolding update redact_fields latest_shown
get_field-update k no_fields payload = refl
get_field-update k (field j v fs) payload = elim (Bool-cases (str_eq j k)) [
  | inl same ↦
      let e = (str_eq_iff j k).0 same in
      get_field-update k fs (set_field j (if is_redacted j then marker else redact v) payload)
      ∙ rw (get_field-set_field k j (if is_redacted j then marker else redact v) payload, same, e)
          refl
  | inr other ↦
      get_field-update k fs (set_field j (if is_redacted j then marker else redact v) payload)
      ∙ rw (get_field-set_field k j (if is_redacted j then marker else redact v) payload, other)
          refl
]

get_field-with_exception :
    (k : String) (exc_info : Option String) (payload : Fields)
    → str_eq "exception" k ≡ false
    → get_field k (with_exception exc_info payload) ≡ get_field k payload
unfolding with_exception
get_field-with_exception k none payload h = refl
get_field-with_exception k (some text) payload h =
    get_field-set_field k "exception" (leaf text) payload ∙ rw h refl

-- Under every key but that of the traceback, a line has what its last extra field of that key shows,
-- or else what it has without extra fields.
pub get_field-format :
    (k : String) (r : LogRecord) (fs : Fields)
    → str_eq "exception" k ≡ false
    → get_field k (format (record r { extra_fields = some fs }))
      ≡ latest_shown k (get_field k (format (record r { extra_fields = none }))) fs
unfolding format
get_field-format k r fs h =
    get_field-with_exception k r.exc_info _ h
    ∙ get_field-update k fs _
    ∙ ap (λ o. latest_shown k o fs) (sym (get_field-with_exception k r.exc_info _ h))
