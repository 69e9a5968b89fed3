-- ===== src/Bootstrap/Document.antt =====
-- The values that `yaml.safe_load` gives, what Python's operations on them do, and the chain of steps
-- that may raise.
use sentinel_distributed_api.Prelude.{
  ℕ, String, Bool, Option, none, some, List, [], ◌∷◌, ◌==◌, str_eq, if◌then◌else◌,
}

mutual
  pub data Yaml : Type 0 where
    null : Yaml
    string : String → Yaml
    integer : ℕ → Yaml
    boolean : Bool → Yaml
    -- A negative number, a float or a date, known by whether it counts as true.
    other : (truth : Bool) → Yaml
    sequence : Items → Yaml
    mapping : Fields → Yaml

  pub data Items : Type 0 where
    no_items : Items
    item : Yaml → Items → Items

  pub data Fields : Type 0 where
    no_fields : Fields
    field : (key : String) → Yaml → Fields → Fields

pub data Error : Type 0 where
  key_error : (key : String) → Error
  type_error attribute_error file_error : Error

-- `ill_typed` is no exception: Python checks no annotation, and goes on with a value of another type
-- than the annotated one. The model stops there and says nothing about what follows.
pub data Result {ℓ} (A : Type ℓ) : Type ℓ where
  loaded : A → Result A
  raised : Error → Result A
  ill_typed : Result A

infixl 5 ◌>>=◌
unfoldable pub ◌>>=◌ {ℓ κ} : {A : Type ℓ} {B : Type κ} → Result A → (A → Result B) → Result B
loaded a >>= f = f a
raised e >>= f = raised e
ill_typed >>= f = ill_typed

-- `value or {}`.
unfoldable pub or_empty_mapping : Yaml → Yaml
or_empty_mapping null = mapping no_fields
or_empty_mapping (string s) = if str_eq s "" then mapping no_fields else string s
or_empty_mapping (integer n) = if n == 0 then mapping no_fields else integer n
or_empty_mapping (boolean b) = if b then boolean b else mapping no_fields
or_empty_mapping (other b) = if b then other b else mapping no_fields
or_empty_mapping (sequence no_items) = mapping no_fields
or_empty_mapping (sequence (item v vs)) = sequence (item v vs)
or_empty_mapping (mapping fs) = mapping fs

unfoldable pub find_field : String → Fields → Option Yaml
find_field k no_fields = none
find_field k (field j v fs) = if str_eq j k then some v else find_field k fs

abbrev pub or_key_error : String → Option Yaml → Result Yaml
or_key_error k none = raised (key_error k)
or_key_error k (some v) = loaded v

-- `value[key]`.
unfoldable pub index : String → Yaml → Result Yaml
unfolding find_field
index k (mapping fs) = or_key_error k (find_field k fs)
index k _ = raised type_error

abbrev pub or_default : Yaml → Option Yaml → Yaml
or_default v none = v
or_default _ (some v) = v

-- `value.get(key, default)`.
unfoldable pub get_or : String → Yaml → Yaml → Result Yaml
unfolding find_field
get_or k default (mapping fs) = loaded (or_default default (find_field k fs))
get_or k default _ = raised attribute_error

abbrev pub items : Items → List Yaml
items no_items = []
items (item v vs) = v ∷ items vs

abbrev pub keys : Fields → List Yaml
keys no_fields = []
keys (field k v fs) = string k ∷ keys fs

abbrev pub letters : String → List Yaml
letters String.[] = []
letters (String.◌∷◌ c s) = string (String.◌∷◌ c String.[]) ∷ letters s

-- What `for x in value` runs through.
unfoldable pub iterate : Yaml → Result (List Yaml)
iterate (sequence vs) = loaded (items vs)
iterate (mapping fs) = loaded (keys fs)
iterate (string s) = loaded (letters s)
iterate _ = raised type_error

-- A value that an annotation asks to be a `str`, an `int` or a `list[str]`.
unfoldable pub str_of : Yaml → Result String
str_of (string s) = loaded s
str_of _ = ill_typed

unfoldable pub int_of : Yaml → Result ℕ
int_of (integer n) = loaded n
int_of _ = ill_typed

unfoldable pub strs_of_items : Items → Result (List String)
unfolding str_of
strs_of_items no_items = loaded []
strs_of_items (item v vs) = do s ← str_of v; ss ← strs_of_items vs; loaded (s ∷ ss)

unfoldable pub strs_of : Yaml → Result (List String)
unfolding strs_of_items
strs_of (sequence vs) = strs_of_items vs
strs_of _ = ill_typed

-- A key that a `dict[str, ...]` is given: a list or a dictionary is not hashable.
unfoldable pub key_of : Yaml → Result String
key_of (string s) = loaded s
key_of (sequence vs) = raised type_error
key_of (mapping fs) = raised type_error
key_of _ = ill_typed
