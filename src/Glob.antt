-- ===== src/Glob.antt =====
-- `fnmatch.fnmatch` of the Python standard library, by which apps/gateway/routing/router.py matches
-- paths: `*`, `?`, `[seq]` and `[!seq]`, case-sensitive as on POSIX. Outside the model: a set that
-- begins with an empty range followed by `!`, such as `[z-a!b]`.
pub mod Decides
pub mod Fuel
use Prim.Native.Char.{code}
use sentinel_distributed_api.Prelude.{
  ℕ, zero, suc, String, Bool, true, false, not, ◌&&◌, ◌||◌, Option, none, some, List, [], ◌∷◌, leb,
  ◌==◌, if◌then◌else◌, length, any,
}

-- The code points of a text.
unfoldable pub codes : String → List ℕ
codes String.[] = []
codes (String.◌∷◌ c s) = code c ∷ codes s

pub data Token : Type 0 where
  literal : ℕ → Token
  any_one any_run : Token
  one_of : (negated : Bool) → List (ℕ × ℕ) → Token

-- The members of a set: `a-c` is a range, and any other character stands for itself.
unfoldable pub ranges : List ℕ → List (ℕ × ℕ)
ranges [] = []
ranges (a ∷ []) = (a, a) ∷ []
ranges (a ∷ b ∷ []) = (a, a) ∷ (b, b) ∷ []
ranges (a ∷ b ∷ c ∷ rest) =
    let range = (a, c) ∷ ranges rest in
    let single = (a, a) ∷ ranges (b ∷ c ∷ rest) in if b == b'-' then range else single

-- The text up to the next `]`, and what follows it.
unfoldable pub until_close : List ℕ → Option (List ℕ × List ℕ)
until_close [] = none
until_close (c ∷ cs) =
    let more = until_close cs in
    if c == b']'
    then some ([], cs)
    else elim more [ none ↦ none | some (inside, rest) ↦ some (c ∷ inside, rest) ]

-- The first character of a set does not close it.
closing : List ℕ → Option (List ℕ × List ℕ)
unfolding until_close
closing [] = none
closing (c ∷ cs) = elim (until_close cs) [
  | none ↦ none
  | some (inside, rest) ↦ some (c ∷ inside, rest)
]

set_token : Bool → Option (List ℕ × List ℕ) → Option (Token × List ℕ)
unfolding ranges
set_token negated none = none
set_token negated (some (inside, rest)) = some (one_of negated (ranges inside), rest)

-- The set that opens before this text, if it is closed.
unfoldable pub bracket : List ℕ → Option (Token × List ℕ)
unfolding closing set_token
bracket [] = none
bracket (c ∷ cs) =
    if c == b'!' then set_token true (closing cs) else set_token false (closing (c ∷ cs))

-- Fuel: each round reads at least one character, so the length of the pattern is enough.
unfoldable pub parse : ℕ → List ℕ → List Token
parse fuel [] = []
parse zero (c ∷ cs) = []
parse (suc fuel) (c ∷ cs) =
    let next = parse fuel cs in
    let opened : List Token = elim (bracket cs) [
      | none ↦ literal b'[' ∷ parse fuel cs
      | some (t, rest) ↦ t ∷ parse fuel rest
    ] in
    if c == b'*'
    then any_run ∷ next
    else if c == b'?'
    then any_one ∷ next
    else if c == b'['
    then opened
    else literal c ∷ next

unfoldable pub in_ranges : ℕ → List (ℕ × ℕ) → Bool
in_ranges c = any λ r. leb r.0 c && leb c r.1

-- Some rest of the text is accepted.
unfoldable pub some_rest : (List ℕ → Bool) → List ℕ → Bool
some_rest accepts [] = accepts []
some_rest accepts (c ∷ s) = accepts (c ∷ s) || some_rest accepts s

unfoldable pub matches : List Token → List ℕ → Bool
unfolding in_ranges some_rest
matches [] [] = true
matches [] (c ∷ s) = false
matches (any_run ∷ ts) s = some_rest (matches ts) s
matches (literal a ∷ ts) [] = false
matches (literal a ∷ ts) (c ∷ s) = a == c && matches ts s
matches (any_one ∷ ts) [] = false
matches (any_one ∷ ts) (c ∷ s) = matches ts s
matches (one_of negated rs ∷ ts) [] = false
matches (one_of negated rs ∷ ts) (c ∷ s) =
    (if negated then not (in_ranges c rs) else in_ranges c rs) && matches ts s

unfoldable pub fnmatch : String → String → Bool
unfolding codes parse matches bracket
fnmatch name pat = matches (parse (length (codes pat)) (codes pat)) (codes name)
