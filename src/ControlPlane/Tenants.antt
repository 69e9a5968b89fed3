-- ===== src/ControlPlane/Tenants.antt =====
-- What the endpoints of the control plane promise about tenants.
use sentinel_distributed_api.Prelude.{
  ℕ, ◌≤◌, ◌<◌, ◌≡◌, ◌⊎◌, inl, inr, refl, ap, sym, ◌∙◌, subst, String, Bool, true, false, ◌&&◌,
  Option, some, ◌∷◌, arith, any, count, str_eq, str_eq_iff, str_eq_refl, ◌==◌, Bool-cases,
  Option-cases, if◌then◌else◌,
}
use sentinel_distributed_api.ControlPlane.Counting.{find_same, any-count}
use sentinel_distributed_api.ControlPlane.{
  TenantStatus, active, suspended, Tenant, Database, has_name, has_id, name_length, is_plain,
  responds, database_error, new_tenant, get_row, refreshed, committed, create_tenant, found,
  get_tenant,
}

abbrev status_eq : TenantStatus → TenantStatus → Bool
status_eq active active = true
status_eq suspended suspended = true
status_eq _ _ = false

status_eq_sound : (a b : TenantStatus) → status_eq a b ≡ true → a ≡ b
status_eq_sound active active h = refl
status_eq_sound suspended suspended h = refl
status_eq_sound active suspended h = cc
status_eq_sound suspended active h = cc

abbrev tenant_eq : Tenant → Tenant → Bool
tenant_eq t u = t.id == u.id && str_eq t.name u.name && status_eq t.status u.status

status_eq_refl : (a : TenantStatus) → status_eq a a ≡ true
status_eq_refl active = refl
status_eq_refl suspended = refl

tenant_eq_refl : (t : Tenant) → tenant_eq t t ≡ true
tenant_eq_refl t = ground (arith, str_eq_refl t.name, status_eq_refl t.status)

tenant_eq_sound : (t u : Tenant) → tenant_eq t u ≡ true → t ≡ u
tenant_eq_sound t u h =
    let same_id : t.id ≡ u.id = ground (arith, h) in
    let same_name : t.name ≡ u.name = ground (arith, h, str_eq_iff t.name u.name) in
    let same_status : t.status ≡ u.status = status_eq_sound t.status u.status (ground (arith, h)) in
    λ i. record { id = same_id i; name = same_name i; status = same_status i }

module _ (database : Database) where
  open database use {
    Table, rows, insert, empty, characters, count-insert, insert-refused, rows-empty,
  }

  -- The tables that the endpoints can make of the empty one.
  pub data Reached : Table → Type 0 where
    start : {table : Table} → table ≡ empty → Reached table
    created :
        {table table' : Table} (name : String) (id : ℕ)
        → is_plain name ≡ true
        → Reached table
        → table' ≡ (create_tenant database name id table).1
        → Reached table'

  -- No two rows have the same name, or the same id.
  pub record Unique (table : Table) : Type 0 where
    pub names : (name : String) → count (has_name name) (rows table) ≤ 1
    pub ids : (id : ℕ) → count (has_id id) (rows table) ≤ 1

  -- What refuses a new row.
  abbrev pub Refused : Tenant → Table → Type 0
  Refused t table =
      (name_length < characters t.name)
      ⊎ (any (has_name t.name) (rows table) ≡ true)
      ⊎ (any (has_id t.id) (rows table) ≡ true)

  inserted_new :
      (t : Tenant) (table table' : Table)
      → is_plain t.name ≡ true
      → insert t table ≡ some table'
      → (count (has_name t.name) (rows table) ≡ 0) × (count (has_id t.id) (rows table) ≡ 0)
  inserted_new t table table' plain e =
      let ok : ¬ Refused t table = λ r. (let no = (insert-refused t table plain).1 r in cc) in
      (
        ground (
          arith,
          any-count (has_name t.name) (rows table),
          λ (h : any (has_name t.name) (rows table) ≡ true). ok (inr (inl h)),
        ),
        ground (
          arith,
          any-count (has_id t.id) (rows table),
          λ (h : any (has_id t.id) (rows table) ≡ true). ok (inr (inr h)),
        ),
      )

  at_most_one :
      (test own : Tenant → Bool) (t : Tenant) (table table' : Table)
      → is_plain t.name ≡ true
      → insert t table ≡ some table'
      → count test (rows table) ≤ 1
      → count own (rows table) ≡ 0
      → (test t ≡ true → test ≡ own)
      → count test (rows table') ≤ 1
  at_most_one test own t table table' plain e once none_yet same = elim (Bool-cases (test t)) [
    | inl yes_test ↦
        let none_there : count test (rows table) ≡ 0 =
          ap (λ p. count p (rows table)) (same yes_test) ∙ none_yet in
        ground (arith, count-insert test t table table' plain e, none_there, yes_test)
    | inr no_test ↦ ground (arith, count-insert test t table table' plain e, once, no_test)
  ]

  insert-Unique :
      (t : Tenant) (table table' : Table)
      → is_plain t.name ≡ true
      → insert t table ≡ some table'
      → Unique table
      → Unique table'
  insert-Unique t table table' plain e u =
      let (no_name, no_id) = inserted_new t table table' plain e in
      record {
        names = λ name.
            at_most_one (has_name name) (has_name t.name) t table table' plain e (u.names name)
              no_name (λ h. ap has_name (sym ((str_eq_iff t.name name).0 h)));
        ids = λ id.
            at_most_one (has_id id) (has_id t.id) t table table' plain e (u.ids id) no_id
              (λ h. ap has_id (ground (arith, h)));
      }

  empty-Unique : Unique empty
  empty-Unique = record {
    names = λ name. rw (rows-empty) (omega arith);
    ids = λ id. rw (rows-empty) (omega arith);
  }

  create-Unique :
      (name : String) (id : ℕ) (table : Table)
      → is_plain name ≡ true
      → Unique table
      → Unique (create_tenant database name id table).1
  unfolding create_tenant
  create-Unique name id table plain u = elim (Option-cases (insert (new_tenant id name) table)) [
    | inl refused ↦ rw refused (unfold committed in u)
    | inr (table', e) ↦
        rw e (unfold committed in insert-Unique (new_tenant id name) table table' plain e u)
  ]

  -- In every table that the endpoints can make of an empty one with such names, no two tenants have the same name and no two have the same id.
  pub Reached-Unique : (table : Table) → Reached table → Unique table
  Reached-Unique table (start e) = rw e empty-Unique
  Reached-Unique table (created {table = before} name id plain r e) =
      rw e (create-Unique name id before plain (Reached-Unique before r))

  -- What a row makes of the look-ups.
  get_row-insert :
      (t : Tenant) (table table' : Table) (j : ℕ)
      → is_plain t.name ≡ true
      → insert t table ≡ some table'
      → Unique table
      → get_row database j table' ≡ (if t.id == j then some t else get_row database j table)
  unfolding get_row
  get_row-insert t table table' j plain e u = sym (
      find_same tenant_eq tenant_eq_refl tenant_eq_sound (has_id j) (t ∷ rows table) (rows table')
        (λ q. sym (count-insert q t table table' plain e))
        (subst (λ n. n ≤ 1) (count-insert (has_id j) t table table' plain e)
          ((insert-Unique t table table' plain e u).ids j)))

  refreshed_own :
      (t : Tenant) (other : Option Tenant)
      → refreshed database (if t.id == t.id then some t else other) ≡ responds 201 t
  unfolding refreshed
  refreshed_own t other = ground arith

  found_own :
      (same : Bool) (t : Tenant) (table : Table) (j : ℕ)
      → found database (if same then some t else get_row database j table)
        ≡ (if same then responds 200 t else get_tenant database j table)
  unfolding found get_tenant
  found_own true t table j = refl
  found_own false t table j = refl

  -- With names that have no NUL and no space at the end, a creation is refused exactly if the name is longer than 255 characters or taken, or the id is
  -- taken; then nothing changes. Otherwise it answers 201 with an active tenant of that name, which
  -- is found under its id from then on, while every other look-up answers as before.
  pub create_tenant_lem :
      (name : String) (id : ℕ) (table : Table)
      → is_plain name ≡ true
      → Reached table
      → let t = new_tenant id name in
        let r = create_tenant database name id table in
        (Refused t table × (r ≡ (database_error, table)))
        ⊎ (¬ Refused t table
            × (r.0 ≡ responds 201 t)
            × ((j : ℕ)
                → get_tenant database j r.1
                  ≡ (if id == j then responds 200 t else get_tenant database j table)))
  unfolding create_tenant get_tenant
  create_tenant_lem name id table plain reached =
      let t = new_tenant id name in
      let u = Reached-Unique table reached in
      elim (Option-cases (insert t table)) [
        | inl refused ↦
            inl ((insert-refused t table plain).0 refused, rw refused (unfold committed in refl))
        | inr (table', e) ↦ rw e (
            unfold committed in
            inr (
              λ r. (let no = (insert-refused t table plain).1 r in cc),
              rw (get_row-insert t table table' id plain e u)
                  (refreshed_own t (get_row database id table)),
              λ j. rw (get_row-insert t table table' j plain e u) (found_own (id == j) t table j),
            ))
      ]
