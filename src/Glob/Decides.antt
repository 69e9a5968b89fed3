-- ===== src/Glob/Decides.antt =====
-- The matcher against the declarative meaning of a pattern.
use sentinel_distributed_api.Prelude.{
  ℕ, zero, suc, ◌+◌, ◌≡◌, ◌≢◌, ◌↔◌, inl, inr, refl, ap, String, true, false, List, [], ◌∷◌, ◌++◌,
  map, arith, All, length, Bool-cases, length-append,
}
use sentinel_distributed_api.Glob.{
  Token, literal, any_one, any_run, one_of, in_ranges, some_rest, matches, codes, parse, fnmatch,
}

-- What a pattern means, without a strategy: a star stands for any text.
pub data Matches : List Token → List ℕ → Type 0 where
  done : Matches [] []
  same : {c : ℕ} {ts : List Token} {s : List ℕ} → Matches ts s → Matches (literal c ∷ ts) (c ∷ s)
  one : {c : ℕ} {ts : List Token} {s : List ℕ} → Matches ts s → Matches (any_one ∷ ts) (c ∷ s)
  member :
      {c : ℕ} {rs : List (ℕ × ℕ)} {ts : List Token} {s : List ℕ}
      → in_ranges c rs ≡ true
      → Matches ts s
      → Matches (one_of false rs ∷ ts) (c ∷ s)
  stranger :
      {c : ℕ} {rs : List (ℕ × ℕ)} {ts : List Token} {s : List ℕ}
      → in_ranges c rs ≡ false
      → Matches ts s
      → Matches (one_of true rs ∷ ts) (c ∷ s)
  stop : {ts : List Token} {s : List ℕ} → Matches ts s → Matches (any_run ∷ ts) s
  skip :
      {c : ℕ} {ts : List Token} {s : List ℕ}
      → Matches (any_run ∷ ts) s
      → Matches (any_run ∷ ts) (c ∷ s)

matches_complete : {ts : List Token} {s : List ℕ} → Matches ts s → matches ts s ≡ true
unfolding matches some_rest
matches_complete done = refl
matches_complete (same m) = ground (arith, matches_complete m)
matches_complete (one m) = matches_complete m
matches_complete (member h m) = ground (arith, matches_complete m)
matches_complete (stranger h m) = ground (arith, matches_complete m)
matches_complete (stop {s = []} m) = matches_complete m
matches_complete (stop {s = c ∷ s} m) = ground (arith, matches_complete m)
matches_complete (skip m) = ground (arith, matches_complete m)

some_rest_sound :
    (ts : List Token) (s : List ℕ)
    → ((r : List ℕ) → matches ts r ≡ true → Matches ts r)
    → some_rest (matches ts) s ≡ true
    → Matches (any_run ∷ ts) s
unfolding some_rest
some_rest_sound ts [] sound h = stop (sound [] h)
some_rest_sound ts (c ∷ s) sound h = elim (Bool-cases (matches ts (c ∷ s))) [
  | inl e ↦ stop (sound (c ∷ s) e)
  | inr e ↦ skip (some_rest_sound ts s sound (ground arith))
]

matches_sound : (ts : List Token) (s : List ℕ) → matches ts s ≡ true → Matches ts s
unfolding matches
matches_sound [] [] h = done
matches_sound [] (c ∷ s) h = cc
matches_sound (any_run ∷ ts) s h = some_rest_sound ts s (matches_sound ts) h
matches_sound (literal a ∷ ts) [] h = cc
matches_sound (literal a ∷ ts) (c ∷ s) h =
    let e : c ≡ a = ground arith in rw e (same (matches_sound ts s (ground arith)))
matches_sound (any_one ∷ ts) [] h = cc
matches_sound (any_one ∷ ts) (c ∷ s) h = one (matches_sound ts s h)
matches_sound (one_of negated rs ∷ ts) [] h = cc
matches_sound (one_of true rs ∷ ts) (c ∷ s) h =
    stranger (ground arith) (matches_sound ts s (ground arith))
matches_sound (one_of false rs ∷ ts) (c ∷ s) h =
    member (ground arith) (matches_sound ts s (ground arith))

-- The matcher accepts a text exactly when the pattern means it.
pub matches_iff : (ts : List Token) (s : List ℕ) → (matches ts s ≡ true) ↔ Matches ts s
matches_iff ts s = (matches_sound ts s, matches_complete)

-- A character that a pattern takes for itself.
abbrev pub IsPlain : ℕ → Type 0
IsPlain c = (c ≢ b'*') × (c ≢ b'?') × (c ≢ b'[')

parse-plain :
    (p rest : List ℕ) (fuel left : ℕ)
    → fuel ≡ length p + left
    → All IsPlain p
    → parse fuel (p ++ rest) ≡ map literal p ++ parse left rest
unfolding parse
parse-plain [] rest fuel left e h = ap (λ f. parse f rest) (omega arith)
parse-plain (c ∷ p) rest zero left e h = absurd (omega arith)
parse-plain (c ∷ p) rest (suc fuel) left e h =
    ground (arith, parse-plain p rest fuel left (omega arith) h.1)

run-matches : (s : List ℕ) → matches (any_run ∷ []) s ≡ true
unfolding matches some_rest
run-matches [] = refl
run-matches (c ∷ s) = run-matches s

prefix-matches : (p rest : List ℕ) → matches (map literal p ++ any_run ∷ []) (p ++ rest) ≡ true
unfolding matches
prefix-matches [] rest = run-matches rest
prefix-matches (c ∷ p) rest = ground (arith, prefix-matches p rest)

matches-prefix :
    (p s : List ℕ)
    → matches (map literal p ++ any_run ∷ []) s ≡ true
    → (rest : List ℕ) × (s ≡ p ++ rest)
unfolding matches
matches-prefix [] s h = (s, refl)
matches-prefix (c ∷ p) [] h = cc
matches-prefix (c ∷ p) (d ∷ s) h =
    let (rest, e) = matches-prefix p s (ground arith) in (rest, ground arith)

-- A pattern of plain characters that ends in one star accepts exactly the texts that begin with
-- those characters.
pub fnmatch-prefix_iff :
    (name pat : String) (p : List ℕ)
    → codes pat ≡ p ++ b'*' ∷ []
    → All IsPlain p
    → (fnmatch name pat ≡ true) ↔ ((rest : List ℕ) × (codes name ≡ p ++ rest))
unfolding fnmatch
fnmatch-prefix_iff name pat p e h =
    let parsed : parse (length (codes pat)) (codes pat) ≡ map literal p ++ any_run ∷ [] =
      rw e
        (parse-plain p (b'*' ∷ []) (length (p ++ b'*' ∷ [])) 1 (length-append p (b'*' ∷ [])) h) in
    rw parsed (λ m. matches-prefix p (codes name) m, λ (rest, at). rw at (prefix-matches p rest))
