-- ===== src/Schema/Checks.antt =====
-- The declared tables against one another and against the code that has the same defaults.
use sentinel_distributed_api.Prelude.{
  ◌≡◌, refl, String, Bool, true, false, ◌&&◌, Option, none, some, List, [], ◌∷◌, any, find, str_eq,
}
use sentinel_distributed_api.Breaker.{default_config}
use sentinel_distributed_api.ControlPlane.{name_length}
use sentinel_distributed_api.Schema.{
  SqlType, uuid, integer, float, boolean, timestamp, jsonb, string, enumeration, Default,
  no_default, uuid4, now, now_on_update, empty_dict, text, member, number, fraction, truth, Column,
  Table,
}
use sentinel_distributed_api.Schema.Tables.{
  tenants, circuit_breaker_policies, routes, backend_instances, metadata,
}

column : String → Table → Option Column
column name t = find (λ c. str_eq c.name name) t.columns

-- Every foreign key refers to a table that is declared before, or to its own.
refers : List String → List Column → Bool
refers seen [] = true
refers seen (c ∷ cs) =
    let rest = refers seen cs in
    elim c.references [ none ↦ rest | some table ↦ any (str_eq table) seen && rest ]

parents_first : List String → List Table → Bool
unfolding refers
parents_first seen [] = true
parents_first seen (t ∷ ts) =
    let rest = parents_first (t.name ∷ seen) ts in refers (t.name ∷ seen) t.columns && rest

-- A default is a value of its column's type.
default_fits : Default → SqlType → Bool
default_fits no_default t = true
default_fits uuid4 uuid = true
default_fits now timestamp = true
default_fits now_on_update timestamp = true
default_fits empty_dict jsonb = true
default_fits (text s) (string n) = true
default_fits (member s) (enumeration name members) = any (str_eq s) members
default_fits (number n) integer = true
default_fits (fraction r) float = true
default_fits (truth b) boolean = true
default_fits _ _ = false

columns_fit : List Column → Bool
unfolding default_fits
columns_fit [] = true
columns_fit (c ∷ cs) = let rest = columns_fit cs in default_fits c.default c.type_ && rest

tables_fit : List Table → Bool
unfolding columns_fit
tables_fit [] = true
tables_fit (t ∷ ts) = let rest = tables_fit ts in columns_fit t.columns && rest

can_be_created : parents_first [] metadata ≡ true
unfolding parents_first str_eq
can_be_created = refl

defaults_fit : tables_fit metadata ≡ true
unfolding tables_fit str_eq
defaults_fit = refl

default_of : Option Column → Default
default_of none = no_default
default_of (some c) = c.default

type_of : Option Column → Option SqlType
type_of none = none
type_of (some c) = some c.type_

-- The endpoints' limit on a name is the column's.
names_limited : type_of (column "name" tenants) ≡ some (string name_length)
unfolding column str_eq type_of
names_limited = refl

-- A breaker with no configuration of its own has the defaults of a stored policy.
breaker_defaults :
    (default_of (column "failure_threshold" circuit_breaker_policies)
      ≡ fraction default_config.failure_threshold)
    × (default_of (column "minimum_requests" circuit_breaker_policies)
        ≡ number default_config.minimum_requests)
    × (default_of (column "half_open_requests" circuit_breaker_policies)
        ≡ number default_config.half_open_max_requests)
unfolding column str_eq default_of
breaker_defaults = (refl, refl, refl)

-- The loader of the configuration file has the same defaults for what a route or an instance leaves out.
loader_defaults :
    (default_of (column "timeout_ms" routes) ≡ number 2000)
    × (default_of (column "priority" routes) ≡ member "NORMAL")
    × (default_of (column "weight" backend_instances) ≡ number 1)
unfolding column str_eq default_of
loader_defaults = (refl, refl, refl)
