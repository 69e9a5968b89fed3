-- ===== src/Glob/Fuel.antt =====
-- The parser reads every pattern to its end: its fuel never runs out.
use sentinel_distributed_api.Prelude.{
  ℕ, zero, suc, ◌≤◌, ◌≡◌, inl, inr, refl, subst, Bool, true, false, Option, none, some, List, [],
  ◌∷◌, arith, ◌==◌, length, Option-cases, Bool-cases,
}
use sentinel_distributed_api.Glob.{until_close, closing, set_token, bracket, parse}

-- What is left after a part of the pattern was read has at most `n` characters.
abbrev Fits {ℓ} : {A : Type ℓ} → ℕ → Option (A × List ℕ) → Type 0
Fits n none = Unit
Fits n (some r) = length r.1 ≤ n

until_close-Fits : (cs : List ℕ) → Fits (length cs) (until_close cs)
unfolding until_close
until_close-Fits [] = _
until_close-Fits (c ∷ cs) = elim (Bool-cases (c == b']')) [
  | inl close ↦ rw close (omega arith)
  | inr goes ↦ rw goes (elim (Option-cases (until_close cs)) [
    | inl open_set ↦ rw open_set _
    | inr (r, e) ↦
        let left : length r.1 ≤ length cs = subst (Fits (length cs)) e (until_close-Fits cs) in
        rw e (omega (arith, left))
  ])
]

closing-Fits : (cs : List ℕ) → Fits (length cs) (closing cs)
unfolding closing
closing-Fits [] = _
closing-Fits (c ∷ cs) = elim (Option-cases (until_close cs)) [
  | inl open_set ↦ rw (open_set, closing) _
  | inr (r, e) ↦
      let left : length r.1 ≤ length cs = subst (Fits (length cs)) e (until_close-Fits cs) in
      rw (e, closing) (omega (arith, left))
]

set_token-Fits :
    (negated : Bool) (n : ℕ) (o : Option (List ℕ × List ℕ))
    → Fits n o
    → Fits n (set_token negated o)
unfolding set_token
set_token-Fits negated n none h = _
set_token-Fits negated n (some r) h = h

Fits-le {ℓ} : {A : Type ℓ} (m n : ℕ) (o : Option (A × List ℕ)) → m ≤ n → Fits m o → Fits n o
Fits-le m n none le h = _
Fits-le m n (some r) le h = omega (arith, h, le)

bracket-Fits : (cs : List ℕ) → Fits (length cs) (bracket cs)
unfolding bracket
bracket-Fits [] = _
bracket-Fits (c ∷ cs) = elim (Bool-cases (c == b'!')) [
  | inl negated ↦ rw negated (
      set_token-Fits true (suc (length cs)) (closing cs)
        (Fits-le (length cs) (suc (length cs)) (closing cs) (omega arith) (closing-Fits cs)))
  | inr plain ↦
      rw plain (set_token-Fits false (suc (length cs)) (closing (c ∷ cs)) (closing-Fits (c ∷ cs)))
]

parse_fuel : (f g : ℕ) (cs : List ℕ) → length cs ≤ f → length cs ≤ g → parse f cs ≡ parse g cs
unfolding parse
parse_fuel f g [] hf hg = refl
parse_fuel zero g (c ∷ cs) hf hg = absurd (omega arith)
parse_fuel (suc f) zero (c ∷ cs) hf hg = absurd (omega arith)
parse_fuel (suc f) (suc g) (c ∷ cs) hf hg =
    let next = parse_fuel f g cs (omega arith) (omega arith) in
    elim (Option-cases (bracket cs)) [
      | inl literal_bracket ↦ rw (literal_bracket, next) refl
      | inr (r, e) ↦
          let left : length r.1 ≤ length cs = subst (Fits (length cs)) e (bracket-Fits cs) in
          rw (e, next, parse_fuel f g r.1 (omega arith) (omega arith)) refl
    ]

-- Reading a pattern ends: whatever fuel of at least its length is given, the parser returns the same
-- tokens, so no pattern is cut off.
pub parse_enough :
    (fuel : ℕ) (cs : List ℕ) → length cs ≤ fuel → parse fuel cs ≡ parse (length cs) cs
parse_enough fuel cs h = parse_fuel fuel (length cs) cs h (omega arith)
