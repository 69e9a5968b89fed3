-- ===== src/Logging/Secrets.antt =====
-- What a log line can tell of a value.
use sentinel_distributed_api.Prelude.{
  ◌≡◌, inl, inr, refl, ap, sym, String, true, false, some, none, Bool-cases, str_eq,
}
use sentinel_distributed_api.Logging.{
  is_redacted, Value, Fields, Items, dictionary, array, leaf, no_fields, field, no_items, item,
  redact, redact_fields, redact_items, LogRecord, format,
}
use sentinel_distributed_api.Logging.Shown.{get_field, latest_shown, get_field-format}

-- Two values that differ at most under redacted keys, at any depth.
mutual
  pub data Alike : Value → Value → Type 0 where
    dictionaries : {fs gs : Fields} → AlikeFields fs gs → Alike (dictionary fs) (dictionary gs)
    arrays : {xs ys : Items} → AlikeItems xs ys → Alike (array xs) (array ys)
    leaves : {s : String} → Alike (leaf s) (leaf s)

  pub data AlikeFields : Fields → Fields → Type 0 where
    ends : AlikeFields no_fields no_fields
    secret :
        {k : String} {v w : Value} {fs gs : Fields}
        → is_redacted k ≡ true
        → AlikeFields fs gs
        → AlikeFields (field k v fs) (field k w gs)
    shown :
        {k : String} {v w : Value} {fs gs : Fields}
        → Alike v w
        → AlikeFields fs gs
        → AlikeFields (field k v fs) (field k w gs)

  pub data AlikeItems : Items → Items → Type 0 where
    no_more : AlikeItems no_items no_items
    next :
        {v w : Value} {xs ys : Items}
        → Alike v w
        → AlikeItems xs ys
        → AlikeItems (item v xs) (item w ys)

mutual
  unfolding redact redact_fields redact_items

  Alike-redact : {v w : Value} → Alike v w → redact v ≡ redact w
  Alike-redact (dictionaries h) = ap dictionary (AlikeFields-redact h)
  Alike-redact (arrays h) = ap array (AlikeItems-redact h)
  Alike-redact leaves = refl

  AlikeFields-redact : {fs gs : Fields} → AlikeFields fs gs → redact_fields fs ≡ redact_fields gs
  AlikeFields-redact ends = refl
  AlikeFields-redact (secret {k} {v} {w} {fs} {gs} e h) = rw (e, AlikeFields-redact h) refl
  AlikeFields-redact (shown {k} {v} {w} {fs} {gs} a h) =
      rw (Alike-redact a, AlikeFields-redact h) refl

  AlikeItems-redact : {xs ys : Items} → AlikeItems xs ys → redact_items xs ≡ redact_items ys
  AlikeItems-redact no_more = refl
  AlikeItems-redact (next {v} {w} {xs} {ys} a h) = rw (Alike-redact a, AlikeItems-redact h) refl

mutual
  unfolding redact redact_fields redact_items

  redact-Alike : (v : Value) → Alike v (redact v)
  redact-Alike (dictionary fs) = dictionaries (redact_fields-Alike fs)
  redact-Alike (array xs) = arrays (redact_items-Alike xs)
  redact-Alike (leaf s) = leaves

  redact_fields-Alike : (fs : Fields) → AlikeFields fs (redact_fields fs)
  redact_fields-Alike no_fields = ends
  redact_fields-Alike (field k v fs) = elim (Bool-cases (is_redacted k)) [
    | inl e ↦ rw e (secret e (redact_fields-Alike fs))
    | inr e ↦ rw e (shown (redact-Alike v) (redact_fields-Alike fs))
  ]

  redact_items-Alike : (xs : Items) → AlikeItems xs (redact_items xs)
  redact_items-Alike no_items = no_more
  redact_items-Alike (item v xs) = next (redact-Alike v) (redact_items-Alike xs)

-- What a log line shows does not depend on any value under a redacted key, at any depth; and all
-- else is shown as it is, so redacting twice changes nothing more.
pub redact_hides :
    (v w : Value)
    → Alike v w
    → (redact v ≡ redact w) × Alike v (redact v) × (redact (redact v) ≡ redact v)
redact_hides v w h = (Alike-redact h, redact-Alike v, sym (Alike-redact (redact-Alike v)))

-- A log line does not depend on any value under a redacted key of its extra fields, at any depth;
-- under every key but `exception` it has what the last extra field of that key says, or the marker if
-- the key is redacted, or else what it has without extra fields; and of a value nothing but what is
-- under redacted keys is changed.
pub format_hides :
    (r : LogRecord) (fs gs : Fields)
    → AlikeFields fs gs
    → (format (record r { extra_fields = some fs }) ≡ format (record r { extra_fields = some gs }))
      × ((k : String)
          → str_eq "exception" k ≡ false
          → get_field k (format (record r { extra_fields = some fs }))
            ≡ latest_shown k (get_field k (format (record r { extra_fields = none }))) fs)
      × ((v : Value) → Alike v (redact v))
unfolding format
format_hides r fs gs h =
    (rw (AlikeFields-redact h) refl, λ k other. get_field-format k r fs other, redact-Alike)
