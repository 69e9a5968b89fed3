-- ===== src/Router/Targets.antt =====
-- Which instances a selection can give out: those that a test passed when they came into the cycle.
use mathlib.Core.List.{Perm, Mem, Memᴰ, perm_append_singleton, mem-cons_self, mem-map}
use mathlib.Core.Logic.{∥∥₁_map, ∥∥₁_elim}
use mathlib.Core.List.Perm
use mathlib.Core.Option.{some-injective}
use sentinel_distributed_api.Prelude.{
  ℕ, ◌≡◌, inl, inr, refl, sym, ap, ◌∙◌, subst, String, Bool, true, Option, none, some, List, [],
  ◌∷◌, ◌++◌, map, max, Memᴰ-replicate, Memᴰ-keep, keep_test, Dict, lookup, insert, lookup-insert,
  str_eq_refl, str_eq, str_eq_iff, ◌==◌, ◌&&◌, arith, Bool-cases,
}
use sentinel_distributed_api.Router.{
  InstanceStatus, healthy, unhealthy, draining, unknown, is_healthy, BackendInstance, is_routable,
  routable, is_last_seen, expand, key, Selector, chosen, rebuild, select, select_from, next_in,
}
use sentinel_distributed_api.Router.RoundRobin.{IsValid}
use sentinel_distributed_api.Router.Fairness.{select_lem}

Memᴰ-expand : {i : BackendInstance} (is : List BackendInstance) → Memᴰ i (expand is) → Memᴰ i is
unfolding expand
Memᴰ-expand [] m = m
Memᴰ-expand (j ∷ is) m = elim (Memᴰ-replicate (max 1 j.weight) m) [
  | inl e ↦ Memᴰ.head e
  | inr m' ↦ Memᴰ.tail (Memᴰ-expand is m')
]

chosen-injective : (x y : BackendInstance) → chosen x ≡ chosen y → x ≡ y
chosen-injective x y same = cc

inserted :
    (k : String) (is js : List BackendInstance) (d : Dict (List BackendInstance))
    → lookup k (insert k is d) ≡ some js
    → is ≡ js
inserted k is js d e =
    let own : lookup k (insert k is d) ≡ some is =
      rw (lookup-insert k k is d, str_eq_refl k) refl in
    some-injective is js (sym own ∙ e)

healthy_status : (st : InstanceStatus) → is_healthy st ≡ true → st ≡ healthy
healthy_status healthy h = refl
healthy_status unhealthy h = cc
healthy_status draining h = cc
healthy_status unknown h = cc

pub routable-mem :
    (is : List BackendInstance) (i : BackendInstance) → Mem i (routable is) → Mem i is
routable-mem is i m = ∥∥₁_map m (Memᴰ-keep is_routable is)

pub routable_healthy :
    (is : List BackendInstance) (i : BackendInstance) → Mem i (routable is) → i.status ≡ healthy
routable_healthy is i m = healthy_status i.status (∥∥₁_elim m (hlevel) (keep_test is_routable is))

-- Every instance of the list passes the test.
abbrev pub Every : (BackendInstance → Bool) → List BackendInstance → Type 0
Every test is = (i : BackendInstance) → Mem i is → test i ≡ true

module _ (test : BackendInstance → Bool) where
  -- Every instance in the cycle of the service passes the test.
  abbrev pub Cycles : String → Selector → Type 0
  Cycles service s =
      (items : List BackendInstance) → lookup service s.cycles ≡ some items → Every test items

  Every-Perm : {is js : List BackendInstance} → Perm js is → Every test is → Every test js
  Every-Perm p h i m = h i (Perm.subset p i m)

  Every-expand : (is : List BackendInstance) → Every test is → Every test (expand is)
  Every-expand is h i m = h i (∥∥₁_map m (Memᴰ-expand is))

  pub Every-routable : (is : List BackendInstance) → Every test is → Every test (routable is)
  Every-routable is h i m = h i (routable-mem is i m)

  module _ (shuffle : List BackendInstance → List BackendInstance)
      (shuffles : (l : List BackendInstance) → Perm (shuffle l) l) (service : String) where
    rebuild-Cycles :
        (is : List BackendInstance) (s : Selector)
        → Every test is
        → Cycles service s
        → Cycles service (rebuild shuffle service is s)
    unfolding rebuild
    rebuild-Cycles is s h c =
        elim (Bool-cases (is_last_seen (lookup service s.last_seen_signature) (map key is))) [
          | inl seen ↦ rw seen c
          | inr new ↦ rw new λ items e.
              subst (Every test) (inserted service (shuffle (expand is)) items s.cycles e)
                (Every-Perm (shuffles (expand is)) (Every-expand is h))
        ]

    next_in-Cycles :
        (s : Selector) (o : Option (List BackendInstance))
        → lookup service s.cycles ≡ o
        → Cycles service s
        → let r = next_in service s o in
          Cycles service r.1 × ((i : BackendInstance) → r.0 ≡ chosen i → test i ≡ true)
    unfolding next_in
    next_in-Cycles s none e c = (c, λ i h. cc)
    next_in-Cycles s (some []) e c = (c, λ i h. cc)
    next_in-Cycles s (some (j ∷ js)) e c = (
      λ items h.
          subst (Every test) (inserted service (js ++ j ∷ []) items s.cycles h)
            (Every-Perm (perm_append_singleton j js) (c (j ∷ js) e)),
      λ i h. subst (λ x. test x ≡ true) (chosen-injective j i h) (c (j ∷ js) e j mem-cons_self),
    )

    -- A selection gives out what passes the test, and what it leaves in the cycle passes it too.
    pub select-Cycles :
        (instances : List BackendInstance) (s : Selector)
        → Every test instances
        → Cycles service s
        → let r = select shuffle service instances s in
          Cycles service r.1 × ((i : BackendInstance) → r.0 ≡ chosen i → test i ≡ true)
    unfolding select
    select-Cycles instances s h c = from (routable instances) (Every-routable instances h)
      where
        from :
            (is : List BackendInstance)
            → Every test is
            → let r = select_from shuffle service is s in
              Cycles service r.1 × ((i : BackendInstance) → r.0 ≡ chosen i → test i ≡ true)
        from [] k = unfold select_from in (c, λ i e. cc)
        from (i ∷ is) k =
            unfold select_from in
            let s' = rebuild shuffle service (i ∷ is) s in
            next_in-Cycles s' (lookup service s'.cycles) refl (rebuild-Cycles (i ∷ is) s k c)

-- A table of addresses by the id of an instance, and the addresses at which a backend is up.
module _ (host_of : String → String) (port_of : String → ℕ) (up : String → ℕ → Bool) where
  abbrev pub at_address : BackendInstance → Bool
  at_address i = str_eq i.host (host_of i.id) && i.port == port_of i.id

  abbrev pub is_up : BackendInstance → Bool
  is_up i = up i.host i.port

  same_address :
      (i j : BackendInstance)
      → at_address i ≡ true
      → at_address j ≡ true
      → key j ≡ key i
      → is_up j ≡ true
      → is_up i ≡ true
  same_address i j hi hj same h =
      let id : j.id ≡ i.id = ap (λ (k : String × ℕ). k.0) same in
      let host : i.host ≡ j.host =
        (str_eq_iff i.host (host_of i.id)).0 (ground (arith, hi))
        ∙ ap host_of (sym id)
        ∙ sym ((str_eq_iff j.host (host_of j.id)).0 (ground (arith, hj))) in
      let port : i.port ≡ j.port =
        (let p : i.port ≡ port_of i.id = ground (arith, hi) in p)
        ∙ ap port_of (sym id)
        ∙ sym (let p : j.port ≡ port_of j.id = ground (arith, hj) in p) in
      rw (host, port) h

  -- What makes a selection for the service safe: the instances and the cycle are as in the table, and
  -- every HEALTHY instance is at an address that is up.
  pub record Safe (service : String) (instances : List BackendInstance) (s : Selector)
      : Type 0 where
    pub valid : IsValid s
    pub listed : Every at_address instances
    pub cycle : Cycles at_address service s
    pub up_if_healthy :
        (i : BackendInstance) → Mem i instances → i.status ≡ healthy → is_up i ≡ true

  module _ (shuffle : List BackendInstance → List BackendInstance)
      (shuffles : (l : List BackendInstance) → Perm (shuffle l) l) where
    -- A safe selection gives out an instance at an address that is up, and the next one is safe too.
    pub select-Safe :
        (service : String) (instances : List BackendInstance) (s : Selector)
        → Safe service instances s
        → let r = select shuffle service instances s in
          Safe service instances r.1 × ((i : BackendInstance) → r.0 ≡ chosen i → is_up i ≡ true)
    select-Safe service instances s safe =
        let (cycle, listed) =
          select-Cycles at_address shuffle shuffles service instances s safe.listed safe.cycle in
        elim (select_lem shuffle shuffles service instances s safe.valid) [
          | inl (none_up, e) ↦ rw e (safe, λ i h. cc)
          | inr (j, e, known, valid) ↦ (
            record {
              valid = valid;
              listed = safe.listed;
              cycle = cycle;
              up_if_healthy = safe.up_if_healthy;
            },
            λ i h.
                let same : j ≡ i = chosen-injective j i (sym e ∙ h) in
                subst (λ x. is_up x ≡ true) same
                  (∥∥₁_elim (mem-map.0 known) (hlevel) λ (k, k_in, k_same).
                    same_address j k (listed j e) (safe.listed k (routable-mem instances k k_in))
                      k_same
                      (safe.up_if_healthy k (routable-mem instances k k_in)
                        (routable_healthy instances k k_in))),
          )
        ]
