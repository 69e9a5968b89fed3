-- ===== src/RateLimit/Sliding/Expiry.antt =====
-- The expiry of a window's key: with a window that is no longer than the time to live it takes away
-- only what has left the window.
use sentinel_distributed_api.Prelude.{
  ℕ, ◌+◌, ◌-◌, ◌*◌, ◌≤◌, ◌≡◌, inl, inr, refl, ap, sym, String, List, [], ◌∷◌, arith, length, keep,
  leb, All, ltb, Bool-cases,
}
use sentinel_distributed_api.RateLimit.Sliding.{
  SlidingWindowPolicy, window_ms, Entry, window_start, is_above, remove_upto, place, is_other,
  add_entry, slide, evaluate_window, left_over,
}

-- No entry is younger than `last`.
abbrev pub NotAfter : ℕ → List Entry → Type 0
NotAfter last = All (λ e. e.score ≤ last)

module _ (p : SlidingWindowPolicy) where
  all_removed :
      (last now : ℕ) (es : List Entry)
      → NotAfter last es
      → last + window_ms p ≤ now
      → remove_upto (window_start p now) es ≡ []
  unfolding remove_upto window_start is_above
  all_removed last now [] h old = refl
  all_removed last now (e ∷ es) h old = ground (arith, h.0, old, all_removed last now es h.1 old)

  -- A key that expired and one that did not are evaluated alike.
  pub evaluate_window-left_over :
      (last now : ℕ) (member : String) (es : List Entry)
      → NotAfter last es
      → last ≤ now
      → window_ms p ≤ 1000 * p.ttl_seconds
      → evaluate_window p now member (left_over p last now es) ≡ evaluate_window p now member es
  unfolding evaluate_window left_over
  evaluate_window-left_over last now member es h later long =
      elim (Bool-cases (ltb (now - last) (1000 * p.ttl_seconds))) [
        | inl there ↦ rw there refl
        | inr gone ↦ rw gone (
            ap (slide p now member) (
              unfold remove_upto in
              sym (all_removed last now es h (ground (arith, later, long, gone)))))
      ]

  pub remove_upto-NotAfter :
      (last now : ℕ) (es : List Entry)
      → NotAfter last es
      → NotAfter last (remove_upto (window_start p now) es)
  unfolding remove_upto
  remove_upto-NotAfter last now [] h = _
  remove_upto-NotAfter last now (e ∷ es) h = elim (Bool-cases (is_above (window_start p now) e)) [
    | inl up ↦ rw up (h.0, remove_upto-NotAfter last now es h.1)
    | inr out ↦ rw out (remove_upto-NotAfter last now es h.1)
  ]

pub NotAfter-mono : (a b : ℕ) (es : List Entry) → a ≤ b → NotAfter a es → NotAfter b es
NotAfter-mono a b [] le h = _
NotAfter-mono a b (e ∷ es) le h = (omega (arith, h.0, le), NotAfter-mono a b es le h.1)

place-NotAfter :
    (last : ℕ) (e : Entry) (es : List Entry)
    → e.score ≤ last
    → NotAfter last es
    → NotAfter last (place e es)
unfolding place
place-NotAfter last e [] he h = (he, _)
place-NotAfter last e (x ∷ xs) he h = elim (Bool-cases (leb x.score e.score)) [
  | inl le ↦ rw le (h.0, place-NotAfter last e xs he h.1)
  | inr gt ↦ rw gt (he, h)
]

keep-NotAfter :
    (last : ℕ) (member : String) (es : List Entry)
    → NotAfter last es
    → NotAfter last (keep (is_other member) es)
keep-NotAfter last member [] h = _
keep-NotAfter last member (e ∷ es) h = elim (Bool-cases (is_other member e)) [
  | inl other ↦ rw other (h.0, keep-NotAfter last member es h.1)
  | inr same ↦ rw same (keep-NotAfter last member es h.1)
]

-- What the script stores at `now` is no younger than that.
pub evaluate_window-NotAfter :
    (p : SlidingWindowPolicy) (last now : ℕ) (member : String) (es : List Entry)
    → last ≤ now
    → NotAfter last es
    → NotAfter now (evaluate_window p now member es).1
unfolding evaluate_window slide add_entry
evaluate_window-NotAfter p last now member es le h =
    let rest = remove_upto (window_start p now) es in
    let young = NotAfter-mono last now rest le (remove_upto-NotAfter p last now es h) in
    elim (Bool-cases (ltb (length rest) p.limit)) [
      | inl room ↦ rw room (
          place-NotAfter now (record { score = now; member = member }) _ (omega arith)
            (keep-NotAfter now member rest young))
      | inr full ↦ rw full young
    ]
