-- ===== src/Prelude/Lists.antt =====
-- Lists measured, cut and searched by native numbers and Boolean tests.
use Prim.Native.Nat.{ℕ, zero, suc, ◌+◌, ◌-◌, ◌≤◌}
use mathlib.Core.Path.{◌≡◌, refl, ap}
use mathlib.Core.Bool.{Bool, true, false}
use mathlib.Core.List.{List, [], ◌∷◌, ◌++◌, Memᴰ}
use mathlib.Core.Logic.{◌⊎◌, inl, inr}
use mathlib.Core.Option.{Option, none, some}
use native.Mathlib.Omega.{arith}
use sentinel_distributed_api.Prelude.Tests.{if◌then◌else◌}

module _ {ℓ} {A : Type ℓ} where
  abbrev pub length : List A → ℕ
  length [] = 0
  length (x ∷ xs) = suc (length xs)

  abbrev pub drop : ℕ → List A → List A
  drop zero xs = xs
  drop (suc n) [] = []
  drop (suc n) (x ∷ xs) = drop n xs

  abbrev pub replicate : ℕ → A → List A
  replicate zero a = []
  replicate (suc n) a = a ∷ replicate n a

  -- `[x for x in xs if test(x)]`.
  abbrev pub keep : (A → Bool) → List A → List A
  keep test [] = []
  keep test (x ∷ xs) = if test x then x ∷ keep test xs else keep test xs

  -- `sum(1 for x in xs if test(x))`.
  abbrev pub count : (A → Bool) → List A → ℕ
  count test [] = 0
  count test (x ∷ xs) = if test x then suc (count test xs) else count test xs

  -- The first entry that passes the test.
  abbrev pub find : (A → Bool) → List A → Option A
  find test [] = none
  find test (x ∷ xs) = if test x then some x else find test xs

  abbrev pub any : (A → Bool) → List A → Bool
  any test [] = false
  any test (x ∷ xs) = if test x then true else any test xs

  -- A predicate of every entry.
  abbrev pub All {κ} : (A → Type κ) → List A → Type κ
  All P [] = Unit
  All P (x ∷ xs) = P x × All P xs

module _ {ℓ} {A : Type ℓ} where
  pub length-append : (xs ys : List A) → length (xs ++ ys) ≡ length xs + length ys
  length-append [] ys = omega arith
  length-append (x ∷ xs) ys = omega (arith, length-append xs ys)

  pub length-drop : (n : ℕ) (xs : List A) → length (drop n xs) ≡ length xs - n
  length-drop zero xs = omega arith
  length-drop (suc n) [] = omega arith
  length-drop (suc n) (x ∷ xs) = omega (arith, length-drop n xs)

  pub count-le-length : (test : A → Bool) (xs : List A) → count test xs ≤ length xs
  count-le-length test [] = omega arith
  count-le-length test (x ∷ xs) = ground (arith, count-le-length test xs)

  pub count-append :
      (test : A → Bool) (xs ys : List A) → count test (xs ++ ys) ≡ count test xs + count test ys
  count-append test [] ys = omega arith
  count-append test (x ∷ xs) ys = ground (arith, count-append test xs ys)

  pub drop-append : (n : ℕ) (xs ys : List A) → n ≤ length xs → drop n (xs ++ ys) ≡ drop n xs ++ ys
  drop-append zero xs ys h = refl
  drop-append (suc n) [] ys h = elim h [ ]
  drop-append (suc n) (x ∷ xs) ys h = drop-append n xs ys (omega arith)

  pub drop-drop : (m n k : ℕ) (xs : List A) → k ≡ n + m → drop m (drop n xs) ≡ drop k xs
  drop-drop m zero k xs e = ap (λ j. drop j xs) (omega arith)
  drop-drop zero (suc n) zero [] e = refl
  drop-drop zero (suc n) (suc k) [] e = refl
  drop-drop (suc m) (suc n) zero [] e = refl
  drop-drop (suc m) (suc n) (suc k) [] e = refl
  drop-drop m (suc n) zero (x ∷ xs) e = absurd (omega arith)
  drop-drop m (suc n) (suc k) (x ∷ xs) e = drop-drop m n k xs (omega arith)

  pub All-append {κ} : (P : A → Type κ) (xs ys : List A) → All P xs → All P ys → All P (xs ++ ys)
  All-append P [] ys hx hy = hy
  All-append P (x ∷ xs) ys hx hy = (hx.0, All-append P xs ys hx.1 hy)

  pub Memᴰ-replicate :
      (n : ℕ) {x y : A} {rest : List A} → Memᴰ y (replicate n x ++ rest) → (y ≡ x) ⊎ Memᴰ y rest
  Memᴰ-replicate zero m = inr m
  Memᴰ-replicate (suc n) (Memᴰ.head e) = inl e
  Memᴰ-replicate (suc n) (Memᴰ.tail m) = Memᴰ-replicate n m

  Memᴰ-if_cons :
      (b : Bool) {x y : A} {kept ys : List A}
      → (Memᴰ x kept → Memᴰ x ys)
      → Memᴰ x (if b then y ∷ kept else kept)
      → Memᴰ x (y ∷ ys)
  Memᴰ-if_cons true h (Memᴰ.head e) = Memᴰ.head e
  Memᴰ-if_cons true h (Memᴰ.tail m) = Memᴰ.tail (h m)
  Memᴰ-if_cons false h m = Memᴰ.tail (h m)

  pub Memᴰ-keep : (test : A → Bool) {x : A} (xs : List A) → Memᴰ x (keep test xs) → Memᴰ x xs
  Memᴰ-keep test [] m = m
  Memᴰ-keep test (y ∷ ys) m = Memᴰ-if_cons (test y) (Memᴰ-keep test ys) m

  keep_test_step :
      (test : A → Bool) (b : Bool) {x y : A} {kept : List A}
      → test y ≡ b
      → (Memᴰ x kept → test x ≡ true)
      → Memᴰ x (if b then y ∷ kept else kept)
      → test x ≡ true
  keep_test_step test true e h (Memᴰ.head same) = rw same e
  keep_test_step test true e h (Memᴰ.tail m) = h m
  keep_test_step test false e h m = h m

  -- What is kept passes the test.
  pub keep_test : (test : A → Bool) {x : A} (xs : List A) → Memᴰ x (keep test xs) → test x ≡ true
  keep_test test [] m = elim m [ ]
  keep_test test (y ∷ ys) m = keep_test_step test (test y) refl (keep_test test ys) m
