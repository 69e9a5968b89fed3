-- ===== src/Router/RoundRobin.antt =====
-- The invariant of the selector, and one selection: the cycle of a service is a round of the
-- signature that was seen last, in some order.
use mathlib.Core.List.{Perm, map-append, perm_append_singleton}
use mathlib.Core.List.Perm
use mathlib.Core.Option.{some-injective}
use sentinel_distributed_api.Prelude.{
  ℕ, zero, suc, ◌≡◌, ◌↔◌, refl, sym, ◌∙◌, ap, subst, String, Bool, true, false, Option, none, some,
  List, [], ◌∷◌, ◌++◌, map, max, arith, if◌then◌else◌, replicate, lookup, lookup-insert, str_eq,
  str_eq_iff, str_eq_refl, Bool-cases, inl, inr,
}
use sentinel_distributed_api.Router.{
  BackendInstance, Signature, key, routable, sig_eq, is_last_seen, expand, Selector, Selection,
  chosen, rebuild, select, select_from, next_in, fresh_selector,
}

-- The keys of a whole round: each as often as its weight says, at least once.
unfoldable pub expand_keys : Signature → Signature
expand_keys [] = []
expand_keys ((i, w) ∷ s) = replicate (max 1 w) (i, w) ++ expand_keys s

map-replicate : (n : ℕ) (i : BackendInstance) → map key (replicate n i) ≡ replicate n (key i)
map-replicate zero i = refl
map-replicate (suc n) i = ap (◌∷◌ (key i)) (map-replicate n i)

map-expand : (is : List BackendInstance) → map key (expand is) ≡ expand_keys (map key is)
unfolding expand expand_keys
map-expand [] = refl
map-expand (i ∷ is) =
    map-append key (replicate (max 1 i.weight) i) (expand is)
    ∙ ap (λ xs. xs ++ map key (expand is)) (map-replicate (max 1 i.weight) i)
    ∙ ap (◌++◌ (replicate (max 1 i.weight) (key i))) (map-expand is)

sig_eq_sound : (s t : Signature) → sig_eq s t ≡ true → s ≡ t
unfolding sig_eq
sig_eq_sound [] [] h = refl
sig_eq_sound [] ((j, w) ∷ t) h = cc
sig_eq_sound ((i, v) ∷ s) [] h = cc
sig_eq_sound ((i, v) ∷ s) ((j, w) ∷ t) h = ground (arith, str_eq_iff i j, sig_eq_sound s t)

pub sig_eq_refl : (s : Signature) → sig_eq s s ≡ true
unfolding sig_eq
sig_eq_refl [] = refl
sig_eq_refl ((i, v) ∷ s) = ground (arith, str_eq_refl i, sig_eq_refl s)

last_seen-eq : (o : Option Signature) (t : Signature) → is_last_seen o t ≡ true → o ≡ some t
unfolding is_last_seen
last_seen-eq none t h = cc
last_seen-eq (some s) t h = ap some (sig_eq_sound s t h)

-- The items of a service's cycle are a round of its last signature.
abbrev pub Serves : Signature → Option (List BackendInstance) → Type 0
Serves sig none = ⊥
Serves sig (some items) = Perm (map key items) (expand_keys sig)

Serves-insert :
    (same : Bool) (sig sig' : Signature) (items : List BackendInstance) (old : Option Signature)
    (old_items : Option (List BackendInstance))
    → Perm (map key items) (expand_keys sig)
    → (old ≡ some sig' → Serves sig' old_items)
    → (if same then some sig else old) ≡ some sig'
    → Serves sig' (if same then some items else old_items)
Serves-insert true sig sig' items old old_items p h e =
    subst (λ t. Perm (map key items) (expand_keys t)) (some-injective sig sig' e) p
Serves-insert false sig sig' items old old_items p h e = h e

expand_keys-cons :
    (p : String × ℕ) (sig : Signature) → (rest : Signature) × (expand_keys (p ∷ sig) ≡ p ∷ rest)
unfolding expand_keys
expand_keys-cons (i, zero) sig = (expand_keys sig, refl)
expand_keys-cons (i, suc w) sig =
    let e : max 1 (suc w) ≡ suc w = omega arith in
    (
      replicate w (i, suc w) ++ expand_keys sig,
      ap (λ n. replicate n (i, suc w) ++ expand_keys sig) e,
    )

-- A round of a nonempty signature is not empty.
Serves-cons :
    (p : String × ℕ) (sig : Signature) (o : Option (List BackendInstance))
    → Serves (p ∷ sig) o
    → (i : BackendInstance) × (is : List BackendInstance) × (o ≡ some (i ∷ is))
Serves-cons p sig none h = absurd h
Serves-cons p sig (some []) h =
    let (rest, e) = expand_keys-cons p sig in absurd (nil≢cons (Perm.nil-eq (subst (Perm []) e h)))
  where
    nil≢cons : {q : String × ℕ} {rest : Signature} → ¬ (◌≡◌ {A = Signature} [] (q ∷ rest))
    nil≢cons e = cc
Serves-cons p sig (some (i ∷ is)) h = (i, is, refl)

pub record IsValid (s : Selector) : Type 0 where
  pub round :
      (service : String) (sig : Signature)
      → lookup service s.last_seen_signature ≡ some sig
      → Serves sig (lookup service s.cycles)

pub fresh_selector-IsValid : IsValid fresh_selector
unfolding fresh_selector lookup
fresh_selector-IsValid = record { round = λ service sig e. cc }

module _ (shuffle : List BackendInstance → List BackendInstance)
    (shuffles : (l : List BackendInstance) → Perm (shuffle l) l) where
  shuffled :
      (is : List BackendInstance) → Perm (map key (shuffle (expand is))) (expand_keys (map key is))
  shuffled is =
      subst (Perm (map key (shuffle (expand is)))) (map-expand is)
        (Perm.map key (shuffles (expand is)))

  rebuild-IsValid :
      (service : String) (is : List BackendInstance) (s : Selector)
      → IsValid s
      → IsValid (rebuild shuffle service is s)
        × (lookup service (rebuild shuffle service is s).last_seen_signature ≡ some (map key is))
  unfolding rebuild is_last_seen
  rebuild-IsValid service is s v =
      let seen? = is_last_seen (lookup service s.last_seen_signature) (map key is) in
      elim (Bool-cases seen?) [
        | inl seen ↦ rw seen (v, last_seen-eq _ (map key is) seen)
        | inr new ↦ rw new (
          record {
            round = λ other sig.
                rw
                  (
                    lookup-insert service other (shuffle (expand is)) s.cycles,
                    lookup-insert service other (map key is) s.last_seen_signature,
                  )
                  (Serves-insert (str_eq service other) (map key is) sig (shuffle (expand is)) _ _
                    (shuffled is) (v.round other sig));
          },
          rw (
            lookup-insert service service (map key is) s.last_seen_signature,
            str_eq_refl service,
          ),
        )
      ]

  -- What a selection from a valid selector does, when `sig` is the signature at hand.
  pub record Chose (service : String) (sig : Signature) (r : Selection × Selector) : Type 0 where
    pub item : BackendInstance
    pub rest : List BackendInstance
    pub selected : r.0 ≡ chosen item
    pub round : Perm (map key (item ∷ rest)) (expand_keys sig)
    pub after : lookup service r.1.cycles ≡ some (rest ++ item ∷ [])
    pub seen : lookup service r.1.last_seen_signature ≡ some sig
    pub valid : IsValid r.1

  rotated :
      (item : BackendInstance) (rest : List BackendInstance) (sig : Signature)
      → Perm (map key (item ∷ rest)) (expand_keys sig)
      → Perm (map key (rest ++ item ∷ [])) (expand_keys sig)
  rotated item rest sig p = Perm.trans (Perm.map key (perm_append_singleton item rest)) p

  next_in-Chose :
      (service : String) (p : String × ℕ) (sig : Signature) (s : Selector)
      → IsValid s
      → lookup service s.last_seen_signature ≡ some (p ∷ sig)
      → Chose service (p ∷ sig) (next_in service s (lookup service s.cycles))
  unfolding next_in
  next_in-Chose service p sig s v seen =
      let (item, rest, e) = Serves-cons p sig _ (v.round service (p ∷ sig) seen) in
      let round : Perm (map key (item ∷ rest)) (expand_keys (p ∷ sig)) =
        subst (Serves (p ∷ sig)) e (v.round service (p ∷ sig) seen) in
      rw e (record {
        item = item;
        rest = rest;
        selected = refl;
        round = round;
        after =
            rw (lookup-insert service service (rest ++ item ∷ []) s.cycles, str_eq_refl service);
        seen = seen;
        valid = record {
          round = λ other sig' h. rw (lookup-insert service other (rest ++ item ∷ []) s.cycles) (
              kept (str_eq service other) (rest ++ item ∷ []) other (str_eq_iff service other) sig'
                h (rotated item rest (p ∷ sig) round));
        };
      })
    where
      kept :
          (same : Bool) (items : List BackendInstance) (other : String)
          → ((same ≡ true) ↔ (service ≡ other))
          → (sig' : Signature) → lookup other s.last_seen_signature ≡ some sig'
          → Perm (map key items) (expand_keys (p ∷ sig))
          → Serves sig' (if same then some items else lookup other s.cycles)
      kept true items other named sig' h q =
          let e : lookup other s.last_seen_signature ≡ some (p ∷ sig) =
            subst (λ k. lookup k s.last_seen_signature ≡ some (p ∷ sig)) (named.0 refl) seen in
          subst (λ t. Perm (map key items) (expand_keys t))
            (some-injective (p ∷ sig) sig' (sym e ∙ h)) q
      kept false items other named sig' h q = v.round other sig' h

  pub select-Chose :
      (service : String) (instances : List BackendInstance) (i : BackendInstance)
      (is : List BackendInstance) (s : Selector)
      → IsValid s
      → routable instances ≡ i ∷ is
      → Chose service (map key (routable instances)) (select shuffle service instances s)
  unfolding select select_from
  select-Chose service instances i is s v e =
      let (v', seen) = rebuild-IsValid service (i ∷ is) s v in
      rw e (next_in-Chose service (key i) (map key is) (rebuild shuffle service (i ∷ is) s) v' seen)
