-- ===== src/ControlPlane.antt =====
-- apps/control_plane/main.py and the table `tenants` of packages/database/models.py. The database is
-- a parameter, `Database`: the rows of the table and what a committed session does to them. An id is
-- a number. Not modelled: the columns `created_at` and `updated_at`, the relationships, and the other
-- tables, which no endpoint uses.
pub mod Counting
pub mod Tenants
pub mod Examples
use Prim.Native.Char.{Char, code}
use sentinel_distributed_api.Prelude.{
  ℕ, ◌≤◌, ◌<◌, ◌≡◌, ◌≢◌, ◌⊎◌, ◌↔◌, String, Bool, true, false, Option, none, some, List, [], ◌∷◌,
  any, count, find, not, ◌&&◌, str_eq, ◌==◌,
}

pub data TenantStatus : Type 0 where
  active suspended : TenantStatus

-- A row of `tenants`.
pub record Tenant : Type 0 where
  pub id : ℕ
  pub name : String
  pub status : TenantStatus

-- `String(255)`.
abbrev pub name_length : ℕ
name_length = 255

abbrev pub has_name : String → Tenant → Bool
has_name name t = str_eq t.name name

abbrev pub has_id : ℕ → Tenant → Bool
has_id id t = t.id == id

-- A name that is stored as it is: a text with NUL is refused, and one that is too long by spaces at
-- its end is cut, so names with a space at the end are left out too.
unfoldable pub is_plain : String → Bool
is_plain String.[] = true
is_plain (String.◌∷◌ c s) =
    let rest = is_plain s in not (code c == 0) && not (code c == b' ' && str_eq s "") && rest

-- A table with the primary key `id` and the unique column `name` of at most `name_length` characters,
-- as the database keeps it: the insertion of a row with a plain name is refused with an error, and then changes nothing, exactly
-- if the name is too long or taken, or the id is taken; otherwise the row is added. The rows are read
-- in any order, so that the laws only count them.
pub record Database : Type 1 where
  pub Table : Type 0
  pub empty : Table
  pub characters : String → ℕ
  pub rows : Table → List Tenant
  pub insert : Tenant → Table → Option Table
  pub rows-empty : rows empty ≡ []
  pub insert-refused :
      (t : Tenant) (table : Table)
      → is_plain t.name ≡ true
      → (insert t table ≡ none) ↔ (
          (name_length < characters t.name)
          ⊎ (any (has_name t.name) (rows table) ≡ true)
          ⊎ (any (has_id t.id) (rows table) ≡ true))
  pub count-insert :
      (test : Tenant → Bool) (t : Tenant) (table table' : Table)
      → is_plain t.name ≡ true
      → insert t table ≡ some table'
      → count test (rows table') ≡ count test (t ∷ rows table)

-- What an endpoint answers: a response, `HTTPException(404)`, or an error of the session that nothing
-- catches.
pub data Answer {ℓ} (A : Type ℓ) : Type ℓ where
  responds : (status_code : ℕ) → A → Answer A
  not_found database_error : Answer A

-- `Tenant(name=payload.name, status=TenantStatus.ACTIVE)`, with the id that its default gives.
abbrev pub new_tenant : ℕ → String → Tenant
new_tenant id name = record { id = id; name = name; status = active }

module _ (database : Database) where
  open database use {Table, rows, insert}

  -- `session.get(Tenant, id)`.
  unfoldable pub get_row : ℕ → Table → Option Tenant
  get_row id table = find (has_id id) (rows table)

  -- `session.refresh(tenant)`.
  refreshed : Option Tenant → Answer Tenant
  refreshed none = database_error
  refreshed (some t) = responds 201 t

  committed : ℕ → Table → Option Table → Answer Tenant × Table
  unfolding get_row refreshed
  committed id table none = (database_error, table)
  committed id table (some table') = (refreshed (get_row id table'), table')

  -- `id` is what `uuid.uuid4` gives.
  unfoldable pub create_tenant : (name : String) (id : ℕ) → Table → Answer Tenant × Table
  unfolding committed
  create_tenant name id table = committed id table (insert (new_tenant id name) table)

  unfoldable pub list_tenants : Table → Answer (List Tenant)
  list_tenants table = responds 200 (rows table)

  found : Option Tenant → Answer Tenant
  found none = not_found
  found (some t) = responds 200 t

  unfoldable pub get_tenant : ℕ → Table → Answer Tenant
  unfolding found get_row
  get_tenant id table = found (get_row id table)
