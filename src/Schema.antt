-- ===== src/Schema.antt =====
-- How packages/database/models.py declares a table: what SQLAlchemy is told of each column. A column
-- with no `nullable` takes it from its annotation. Not modelled: the relationships, which only name
-- what can be read through a foreign key.
pub mod Tables
pub mod Checks
use sentinel_distributed_api.Prelude.{ℕ, String, Bool, true, false, Option, none, some, List, Ratio}

pub data SqlType : Type 0 where
  uuid integer float boolean timestamp array jsonb : SqlType
  string : (length : ℕ) → SqlType
  enumeration : (name : String) → (members : List String) → SqlType

pub data Default : Type 0 where
  -- `now`, and with `onupdate` as well `now_on_update`, are defaults of the server; `uuid4` and
  -- `empty_dict` are calls.
  no_default uuid4 now now_on_update empty_dict : Default
  text member : String → Default
  number : ℕ → Default
  fraction : Ratio → Default
  truth : Bool → Default

pub record Column : Type 0 where
  pub name : String
  pub type_ : SqlType
  pub primary_key : Bool
  pub nullable : Bool
  pub unique : Bool
  pub index : Bool
  -- The table whose `id` the column refers to.
  pub references : Option String
  pub default : Default

pub record Table : Type 0 where
  pub name : String
  pub columns : List Column
  -- The columns of each `UniqueConstraint`.
  pub unique_together : List (List String)

-- `Mapped[...] = mapped_column(...)`, with no argument but the type.
abbrev pub plain : String → SqlType → Column
plain name t = record {
  name = name;
  type_ = t;
  primary_key = false;
  nullable = false;
  unique = false;
  index = false;
  references = none;
  default = no_default;
}

abbrev pub with_default : String → SqlType → Default → Column
with_default name t d = record (plain name t) { default = d }

abbrev pub optional : String → SqlType → Column
optional name t = record (plain name t) { nullable = true }

-- `mapped_column(ForeignKey("<table>.id"), nullable=False)`.
abbrev pub foreign_key : String → String → Column
foreign_key name table = record (plain name uuid) { references = some table }

-- `_uuid_pk`.
abbrev pub uuid_pk : Column
uuid_pk = record (plain "id" uuid) { primary_key = true; default = uuid4 }
