-- ===== src/Router/Fairness.antt =====
-- Weighted round robin as its callers see it: what one selection gives, and what a round gives.
use mathlib.Core.List.{Perm, Mem, append_assoc, mem-cons_self, Memᴰ}
use mathlib.Core.Logic.{∥∥₁_map}
use mathlib.Core.List.Perm
use sentinel_distributed_api.Prelude.{
  ℕ, zero, suc, ◌≡◌, ◌≢◌, refl, ◌∙◌, ap, String, some, List, [], ◌∷◌, ◌++◌, map, max,
  Memᴰ-replicate, length, lookup, insert, lookup-insert, str_eq_refl, inl, inr, ◌⊎◌,
}
use sentinel_distributed_api.Router.{
  BackendInstance, Signature, key, routable, is_last_seen, Selector, Selection, chosen,
  no_healthy_backend_error, rebuild, select, select_from, next_in,
}
use sentinel_distributed_api.Router.RoundRobin.{expand_keys, sig_eq_refl, IsValid, select-Chose}

List-cases {ℓ} : {A : Type ℓ} (xs : List A) → (xs ≡ []) ⊎ ((y : A) × (ys : List A) × (xs ≡ y ∷ ys))
List-cases [] = inl refl
List-cases (x ∷ xs) = inr (x, xs, refl)

Memᴰ-expand_keys : {q : String × ℕ} (sig : Signature) → Memᴰ q (expand_keys sig) → Memᴰ q sig
unfolding expand_keys
Memᴰ-expand_keys [] m = m
Memᴰ-expand_keys ((i, w) ∷ sig) m = elim (Memᴰ-replicate (max 1 w) m) [
  | inl e ↦ Memᴰ.head e
  | inr m' ↦ Memᴰ.tail (Memᴰ-expand_keys sig m')
]

mem-expand_keys : {q : String × ℕ} (sig : Signature) → Mem q (expand_keys sig) → Mem q sig
mem-expand_keys sig m = ∥∥₁_map m (Memᴰ-expand_keys sig)

module _ (shuffle : List BackendInstance → List BackendInstance) where
  -- A selection whose signature was seen last gives out the next item of the cycle.
  select-next :
      (service : String) (instances : List BackendInstance) (i : BackendInstance)
      (is : List BackendInstance) (x : BackendInstance) (xs : List BackendInstance) (s : Selector)
      → routable instances ≡ i ∷ is
      → lookup service s.last_seen_signature ≡ some (map key (i ∷ is))
      → lookup service s.cycles ≡ some (x ∷ xs)
      → select shuffle service instances s
        ≡ (chosen x, record s { cycles = insert service (xs ++ x ∷ []) s.cycles })
  unfolding select select_from rebuild next_in is_last_seen
  select-next service instances i is x xs s e seen items =
      rw (e, seen, sig_eq_refl (map key (i ∷ is)), items)

  -- `n` selections in turn over the same instances.
  unfoldable pub select_many :
      ℕ → String → List BackendInstance → Selector → List Selection × Selector
  select_many zero service instances s = ([], s)
  select_many (suc n) service instances s =
      let (r, s') = select shuffle service instances s in
      let (rs, s'') = select_many n service instances s' in (r ∷ rs, s'')

  select_many-next :
      (service : String) (instances : List BackendInstance) (i : BackendInstance)
      (is : List BackendInstance) (xs ys : List BackendInstance) (s : Selector)
      → routable instances ≡ i ∷ is
      → lookup service s.last_seen_signature ≡ some (map key (i ∷ is))
      → lookup service s.cycles ≡ some (xs ++ ys)
      → (select_many (length xs) service instances s).0 ≡ map chosen xs
  unfolding select_many
  select_many-next service instances i is [] ys s e seen items = refl
  select_many-next service instances i is (x ∷ xs) ys s e seen items =
      let s' = record s { cycles = insert service ((xs ++ ys) ++ x ∷ []) s.cycles } in
      let next : lookup service s'.cycles ≡ some (xs ++ (ys ++ x ∷ [])) =
        rw (lookup-insert service service ((xs ++ ys) ++ x ∷ []) s.cycles, str_eq_refl service)
          (ap some (append_assoc xs ys (x ∷ []))) in
      rw (select-next service instances i is x (xs ++ ys) s e seen items) (
        ap (◌∷◌ (chosen x))
          (select_many-next service instances i is xs (ys ++ x ∷ []) s' e seen next))

module _ (shuffle : List BackendInstance → List BackendInstance)
    (shuffles : (l : List BackendInstance) → Perm (shuffle l) l) where
  -- While some instance is routable, a selection never fails, keeps the selector valid and gives out
  -- an instance whose id and weight are those of a routable one; with none it raises
  -- `NoHealthyBackendError` and changes nothing. (The shuffle permutes.)
  pub select_lem :
      (service : String) (instances : List BackendInstance) (s : Selector)
      → IsValid s
      → ((routable instances ≡ [])
          × (select shuffle service instances s ≡ (no_healthy_backend_error, s)))
        ⊎ ((i : BackendInstance) × ((select shuffle service instances s).0 ≡ chosen i)
            × Mem (key i) (map key (routable instances))
            × IsValid (select shuffle service instances s).1)
  unfolding select select_from
  select_lem service instances s v = elim (List-cases (routable instances)) [
    | inl e ↦ inl (e, rw e)
    | inr (i, is, e) ↦
        let c = select-Chose shuffle shuffles service instances i is s v e in
        inr (c.item, c.selected, mem-expand_keys _ (Perm.subset c.round _ mem-cons_self), c.valid)
  ]

  -- Fairness: over one round of selections for unchanged instances, each routable instance is given
  -- out exactly as often as its weight says (once if the weight is 0), in some order. (The selector
  -- is valid, some instance is routable, and the shuffle permutes.)
  pub select_many-fair :
      (service : String) (instances : List BackendInstance) (s : Selector)
      → IsValid s
      → routable instances ≢ []
      → (items : List BackendInstance) × ((select_many shuffle (length items) service instances s).0
          ≡ map chosen items)
        × Perm (map key items) (expand_keys (map key (routable instances)))
  unfolding select_many
  select_many-fair service instances s v h = elim (List-cases (routable instances)) [
    | inl e ↦ absurd (h e)
    | inr (i, is, e) ↦
        let c = select-Chose shuffle shuffles service instances i is s v e in
        (
          c.item ∷ c.rest,
          rw c.selected (
              ap (◌∷◌ (chosen c.item)) (
                select_many-next shuffle service instances i is c.rest (c.item ∷ []) _ e
                  (c.seen ∙ ap (λ l. some (map key l)) e) c.after)),
          c.round,
        )
  ]
