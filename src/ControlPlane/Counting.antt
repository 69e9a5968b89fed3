-- ===== src/ControlPlane/Counting.antt =====
-- Lists known by how often their entries pass tests, in any order.
use sentinel_distributed_api.Prelude.{
  ◌+◌, ◌≤◌, ◌<◌, ◌≡◌, inl, inr, refl, ap, sym, ◌∙◌, subst, Bool, true, not, ◌&&◌, none, some, List,
  [], ◌∷◌, arith, any, ◌↔◌, count, find, ltb, ltb→lt, Bool-cases, Option-cases,
}

module _ {ℓ} {A : Type ℓ} where
  find-none : (p : A → Bool) (l : List A) → count p l ≡ 0 → find p l ≡ none
  find-none p [] h = refl
  find-none p (x ∷ l) h = elim (Bool-cases (p x)) [
    | inl e ↦ absurd (ground (arith, h, e))
    | inr e ↦ rw e (find-none p l (ground (arith, h, e)))
  ]

  find_pos : (p : A → Bool) (l : List A) → 0 < count p l → (x : A) × (find p l ≡ some x)
  find_pos p [] h = absurd (omega arith)
  find_pos p (x ∷ l) h = elim (Bool-cases (p x)) [
    | inl e ↦ (x, rw e refl)
    | inr e ↦ rw e (find_pos p l (ground (arith, h, e)))
  ]

  find_sound : (p : A → Bool) (x : A) (l : List A) → find p l ≡ some x → p x ≡ true
  find_sound p x [] h = cc
  find_sound p x (y ∷ l) h = elim (Bool-cases (p y)) [
    | inl e ↦ subst (λ z. p z ≡ true) (ground (arith, h, e)) e
    | inr e ↦ find_sound p x l (ground (arith, h, e))
  ]

  count_pos : (p q : A → Bool) (x : A) (l : List A) → find p l ≡ some x → q x ≡ true → 0 < count q l
  count_pos p q x [] h t = cc
  count_pos p q x (y ∷ l) h t = elim (Bool-cases (p y)) [
    | inl e ↦
        let t' : q y ≡ true = subst (λ z. q z ≡ true) (sym (ground (arith, h, e))) t in
        ground (arith, t')
    | inr e ↦ ground (arith, count_pos p q x l (ground (arith, h, e)) t)
  ]

  count_split :
      (p q : A → Bool) (l : List A)
      → count p l ≡ count (λ x. p x && q x) l + count (λ x. p x && not (q x)) l
  count_split p q [] = omega arith
  count_split p q (x ∷ l) = ground (arith, count_split p q l)

  -- The only row that passes a test is found in any order.
  pub find_same :
      (eq : A → A → Bool) (eq_refl : (x : A) → eq x x ≡ true)
      (eq_sound : (x y : A) → eq x y ≡ true → x ≡ y) (p : A → Bool) (l l' : List A)
      → ((q : A → Bool) → count q l ≡ count q l')
      → count p l ≤ 1
      → find p l ≡ find p l'
  find_same eq eq_refl eq_sound p l l' same once = elim (Option-cases (find p l)) [
    | inl none_found ↦
        none_found ∙ sym (find-none p l' (omega (arith, same p, none_counted none_found)))
    | inr (x, x_found) ↦
        let px = find_sound p x l x_found in
        let own = count_pos p (λ y. p y && eq y x) x l x_found (rw (px, eq_refl x) refl) in
        let (y, y_found) = find_pos p l' (omega (arith, same p, count_pos p p x l x_found px)) in
        let py = find_sound p y l' y_found in
        elim (Bool-cases (eq y x)) [
          | inl e ↦ x_found ∙ ap some (sym (eq_sound y x e)) ∙ sym y_found
          | inr e ↦
              let strange = count_pos p (λ z. p z && not (eq z x)) y l' y_found (rw (py, e) refl) in
              absurd (
                omega (
                  arith,
                  own,
                  strange,
                  same (λ z. p z && not (eq z x)),
                  count_split p (λ z. eq z x) l,
                  once,
                ))
        ]
  ]
    where
      none_counted : find p l ≡ none → count p l ≡ 0
      none_counted h = elim (Bool-cases (ltb 0 (count p l))) [
        | inl e ↦ let (x, f) = find_pos p l (ltb→lt 0 (count p l) e) in cc
        | inr e ↦ ground (arith, e)
      ]

  pub any-count : (p : A → Bool) (l : List A) → (any p l ≡ true) ↔ (0 < count p l)
  any-count p [] = (λ h. cc, λ h. absurd (omega arith))
  any-count p (x ∷ l) = ground (arith, any-count p l)
