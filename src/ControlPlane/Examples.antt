-- ===== src/ControlPlane/Examples.antt =====
-- A list of rows as the database, and the theorems applied to it.
use sentinel_distributed_api.Prelude.{
  ℕ, suc, ◌<◌, ◌≡◌, ◌⊎◌, ◌↔◌, refl, String, Bool, true, ◌||◌, Option, none, some, List, [], ◌∷◌,
  arith, any, count, str_eq, ltb, ◌==◌, if◌then◌else◌,
}
use sentinel_distributed_api.ControlPlane.{
  Tenant, Database, has_name, has_id, name_length, responds, not_found, database_error, new_tenant,
  create_tenant, get_tenant, get_row, is_plain,
}
use sentinel_distributed_api.ControlPlane.Tenants.{
  Reached, start, created, Refused, create_tenant_lem,
}

abbrev characters : String → ℕ
characters String.[] = 0
characters (String.◌∷◌ c s) = suc (characters s)

abbrev refuses : Tenant → List Tenant → Bool
refuses t rows =
    ltb name_length (characters t.name) || any (has_name t.name) rows || any (has_id t.id) rows

abbrev insert_row : Tenant → List Tenant → Option (List Tenant)
insert_row t rows = if refuses t rows then none else some (t ∷ rows)

insert_row-refused :
    (t : Tenant) (rows : List Tenant)
    → (insert_row t rows ≡ none) ↔ (
        (name_length < characters t.name)
        ⊎ (any (has_name t.name) rows ≡ true)
        ⊎ (any (has_id t.id) rows ≡ true))
insert_row-refused t rows = ground arith

count-insert_row :
    (test : Tenant → Bool) (t : Tenant) (rows rows' : List Tenant)
    → insert_row t rows ≡ some rows'
    → count test rows' ≡ count test (t ∷ rows)
count-insert_row test t rows rows' e = ground (arith, e)

abbrev list_database : Database
list_database = record {
  Table = List Tenant;
  empty = [];
  characters = characters;
  rows = λ rows. rows;
  insert = insert_row;
  rows-empty = refl;
  insert-refused = λ t table plain. insert_row-refused t table;
  count-insert = λ test t table table' plain. count-insert_row test t table table';
}

abbrev acme : Tenant
acme = new_tenant 7 "acme"

created_acme : create_tenant list_database "acme" 7 [] ≡ (responds 201 acme, acme ∷ [])
unfolding create_tenant get_row str_eq
created_acme = refl

taken_name : create_tenant list_database "acme" 8 (acme ∷ []) ≡ (database_error, acme ∷ [])
unfolding create_tenant str_eq
taken_name = refl

unknown_id : get_tenant list_database 9 (acme ∷ []) ≡ not_found
unfolding get_tenant get_row
unknown_id = refl

one_tenant : Reached list_database (acme ∷ [])
unfolding create_tenant get_row str_eq is_plain
one_tenant = created "acme" 7 refl (start refl) refl

create_tenant_lem_example :
    let t = new_tenant 8 "zeta" in
    let r = create_tenant list_database "zeta" 8 (acme ∷ []) in
    (Refused list_database t (acme ∷ []) × (r ≡ (database_error, acme ∷ [])))
    ⊎ (¬ Refused list_database t (acme ∷ [])
        × (r.0 ≡ responds 201 t)
        × ((j : ℕ)
            → get_tenant list_database j r.1
              ≡ (if 8 == j then responds 200 t else get_tenant list_database j (acme ∷ []))))
create_tenant_lem_example =
    create_tenant_lem list_database "zeta" 8 (acme ∷ []) (unfold is_plain str_eq in refl) one_tenant
