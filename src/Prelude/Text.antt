-- ===== src/Prelude/Text.antt =====
-- Methods of `str`. `upper` and `lower` are those on ASCII letters; other characters stay as they
-- are.
use Prim.Native.Char.{Char, code}
use Prim.Native.String.{String}
use mathlib.Core.Option.{Option, none, some}
use mathlib.Core.Bool.{Bool, ◌&&◌, ◌||◌}
use sentinel_distributed_api.Prelude.Tests.{leb, ◌==◌, if◌then◌else◌}

-- The character that stands in the second text where `c` stands in the first.
pub exchange : Char → String → String → Char
exchange c (String.◌∷◌ x xs) (String.◌∷◌ y ys) = if code x == code c then y else exchange c xs ys
exchange c _ _ = c

abbrev pub lower_letters : String
lower_letters = "abcdefghijklmnopqrstuvwxyz"

abbrev pub upper_letters : String
upper_letters = "ABCDEFGHIJKLMNOPQRSTUVWXYZ"

unfoldable pub upper : String → String
unfolding exchange
upper String.[] = String.[]
upper (String.◌∷◌ c s) = String.◌∷◌ (exchange c lower_letters upper_letters) (upper s)

unfoldable pub lower : String → String
unfolding exchange
lower String.[] = String.[]
lower (String.◌∷◌ c s) = String.◌∷◌ (exchange c upper_letters lower_letters) (lower s)

rstrip_cons : Char → String → String
rstrip_cons c String.[] = if code c == b'*' then String.[] else String.◌∷◌ c String.[]
rstrip_cons c (String.◌∷◌ d s) = String.◌∷◌ c (String.◌∷◌ d s)

-- `s.rstrip('*')`.
unfoldable pub rstrip_star : String → String
unfolding rstrip_cons
rstrip_star String.[] = String.[]
rstrip_star (String.◌∷◌ c s) = rstrip_cons c (rstrip_star s)

-- `str.strip` takes these of the characters below 256, the ones a header value has.
abbrev is_space : Char → Bool
is_space c =
    (leb 9 (code c) && leb (code c) 13)
    || (leb 28 (code c) && leb (code c) 32)
    || code c == 133
    || code c == 160

lstrip : String → String
lstrip String.[] = String.[]
lstrip (String.◌∷◌ c s) = let rest = lstrip s in if is_space c then rest else String.◌∷◌ c s

rstrip_after : Char → String → String
rstrip_after c String.[] = if is_space c then String.[] else String.◌∷◌ c String.[]
rstrip_after c (String.◌∷◌ d s) = String.◌∷◌ c (String.◌∷◌ d s)

rstrip : String → String
unfolding rstrip_after
rstrip String.[] = String.[]
rstrip (String.◌∷◌ c s) = rstrip_after c (rstrip s)

unfoldable pub strip : String → String
unfolding lstrip rstrip
strip s = rstrip (lstrip s)

after_prefix : String → String → Option String
after_prefix String.[] s = some s
after_prefix (String.◌∷◌ c p) String.[] = none
after_prefix (String.◌∷◌ c p) (String.◌∷◌ d s) =
    let rest = after_prefix p s in if code c == code d then rest else none

abbrev pub or_text : Option String → String → String
or_text none s = s
or_text (some t) s = t

unfoldable pub removeprefix : String → String → String
unfolding after_prefix
removeprefix p s = or_text (after_prefix p s) s
