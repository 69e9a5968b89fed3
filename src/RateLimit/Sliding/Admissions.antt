-- ===== src/RateLimit/Sliding/Admissions.antt =====
-- How many requests a window admits.
use sentinel_distributed_api.Prelude.{
  ℕ, suc, ◌+◌, ◌-◌, ◌*◌, ◌≤◌, ◌<◌, ◌≡◌, ◌⊎◌, inl, inr, refl, String, Bool, true, false, ◌&&◌,
  Option, List, [], ◌∷◌, arith, length, keep, count, All, leb, ltb, if◌then◌else◌, dec_lt,
  Bool-cases, count-le-length,
}
use sentinel_distributed_api.RateLimit.Sliding.{
  SlidingWindowPolicy, window_ms, Entry, window_start, is_above, remove_upto, place, is_other,
  add_entry, slide, evaluate_window, left_over,
}
use sentinel_distributed_api.RateLimit.Sliding.Expiry.{
  NotAfter, evaluate_window-left_over, evaluate_window-NotAfter,
}

-- The times at which requests are admitted, which ask in turn, if the key never expires.
unfoldable pub admissions_kept : SlidingWindowPolicy → List Entry → List Entry → List ℕ
unfolding evaluate_window
admissions_kept p es [] = []
admissions_kept p es (q ∷ qs) =
    let (reply, es') = evaluate_window p q.score q.member es in
    let later = admissions_kept p es' qs in if reply.0 then q.score ∷ later else later

-- The same, with a key that expires: `last` is when it was last evaluated.
unfoldable pub admissions : SlidingWindowPolicy → ℕ → List Entry → List Entry → List ℕ
unfolding evaluate_window left_over
admissions p last es [] = []
admissions p last es (q ∷ qs) =
    let (reply, es') = evaluate_window p q.score q.member (left_over p last q.score es) in
    let later = admissions p q.score es' qs in if reply.0 then q.score ∷ later else later

-- The clock does not go back.
abbrev pub Times : ℕ → List Entry → Type 0
Times lo [] = Unit
Times lo (q ∷ qs) = (lo ≤ q.score) × Times q.score qs

-- Nobody has the member.
abbrev pub Unused : String → List Entry → Type 0
Unused m = All (λ e. is_other m e ≡ true)

-- Every request has a member of its own.
abbrev pub Fresh : List Entry → List Entry → Type 0
Fresh seen [] = Unit
Fresh seen (q ∷ qs) = Unused q.member seen × Fresh (q ∷ seen) qs

-- The window of length `window_ms` that ends at `t`.
abbrev pub within : SlidingWindowPolicy → ℕ → ℕ → Bool
within p t s = leb s t && ltb t (s + window_ms p)

abbrev score_within : SlidingWindowPolicy → ℕ → Entry → Bool
score_within p t e = within p t e.score

module _ (p : SlidingWindowPolicy) where
  above_cases :
      (now : ℕ) (e : Entry)
      → (is_above (window_start p now) e ≡ true)
        ⊎ ((is_above (window_start p now) e ≡ false) × (e.score + window_ms p ≤ now))
  unfolding is_above window_start
  above_cases now e = elim (Bool-cases (leb (window_ms p) now)) [
    | inl h ↦ rw h (elim (Bool-cases (ltb (now - window_ms p) e.score)) [
      | inl up ↦ inl up
      | inr out ↦ inr (out, ground (arith, h, out))
    ])
    | inr h ↦ rw h (inl refl)
  ]

  count-remove_upto :
      (now t : ℕ) (es : List Entry)
      → now ≤ t
      → count (score_within p t) (remove_upto (window_start p now) es) ≡ count (score_within p t) es
  unfolding remove_upto
  count-remove_upto now t [] h = refl
  count-remove_upto now t (e ∷ es) h =
      ground (arith, above_cases now e, count-remove_upto now t es h)

  pub length-remove_upto : (m : Option ℕ) (es : List Entry) → length (remove_upto m es) ≤ length es
  unfolding remove_upto
  length-remove_upto m [] = omega arith
  length-remove_upto m (e ∷ es) = ground (arith, length-remove_upto m es)

  remove_upto-Unused :
      (m : String) (o : Option ℕ) (es : List Entry) → Unused m es → Unused m (remove_upto o es)
  unfolding remove_upto
  remove_upto-Unused m o [] h = _
  remove_upto-Unused m o (e ∷ es) h = elim (Bool-cases (is_above o e)) [
    | inl up ↦ rw up (h.0, remove_upto-Unused m o es h.1)
    | inr out ↦ rw out (remove_upto-Unused m o es h.1)
  ]

count-place :
    (test : Entry → Bool) (e : Entry) (es : List Entry)
    → count test (place e es) ≡ count test (e ∷ es)
unfolding place
count-place test e [] = refl
count-place test e (x ∷ xs) = ground (arith, count-place test e xs)

length-place : (e : Entry) (es : List Entry) → length (place e es) ≡ suc (length es)
unfolding place
length-place e [] = refl
length-place e (x ∷ xs) = ground (arith, length-place e xs)

place-Unused :
    (m : String) (e : Entry) (es : List Entry)
    → is_other m e ≡ true
    → Unused m es
    → Unused m (place e es)
unfolding place
place-Unused m e [] he h = (he, _)
place-Unused m e (x ∷ xs) he h = elim (Bool-cases (leb x.score e.score)) [
  | inl le ↦ rw le (h.0, place-Unused m e xs he h.1)
  | inr gt ↦ rw gt (he, h)
]

keep-Unused : (m : String) (es : List Entry) → Unused m es → keep (is_other m) es ≡ es
keep-Unused m [] h = refl
keep-Unused m (e ∷ es) h = rw (h.0, keep-Unused m es h.1) refl

module _ (p : SlidingWindowPolicy) where
  abbrev left_at : ℕ → List Entry → List Entry
  left_at now es = remove_upto (window_start p now) es

  admissions-admit :
      (es : List Entry) (q : Entry) (qs : List Entry)
      → ltb (length (left_at q.score es)) p.limit ≡ true
      → Unused q.member (left_at q.score es)
      → admissions_kept p es (q ∷ qs)
        ≡ q.score ∷ admissions_kept p (place q (left_at q.score es)) qs
  unfolding admissions_kept evaluate_window slide add_entry
  admissions-admit es q qs room unused = rw (room, keep-Unused q.member _ unused) refl

  admissions-reject :
      (es : List Entry) (q : Entry) (qs : List Entry)
      → ltb (length (left_at q.score es)) p.limit ≡ false
      → admissions_kept p es (q ∷ qs) ≡ admissions_kept p (left_at q.score es) qs
  unfolding admissions_kept evaluate_window slide
  admissions-reject es q qs full = rw full refl

  admissions_late :
      (t lo : ℕ) (es qs : List Entry)
      → Times lo qs
      → t < lo
      → count (within p t) (admissions_kept p es qs) ≡ 0
  unfolding admissions_kept
  admissions_late t lo es [] h late = refl
  admissions_late t lo es (q ∷ qs) h late =
      let (reply, es') = evaluate_window p q.score q.member es in
      ground (arith, h.0, admissions_late t q.score es' qs h.1 (omega arith))

  window_bounded :
      (t lo : ℕ) (es seen qs : List Entry)
      → length es ≤ p.limit
      → Times lo qs
      → Fresh seen qs
      → ((m : String) → Unused m seen → Unused m es)
      → count (score_within p t) es + count (within p t) (admissions_kept p es qs) ≤ p.limit
  window_bounded t lo es seen [] few times fresh known =
      unfold admissions_kept in omega (arith, count-le-length (score_within p t) es)
  window_bounded t lo es seen (q ∷ qs) few times fresh known = elim (dec_lt t q.score) [
    | yes late ↦ omega (
      arith,
      count-le-length (score_within p t) es,
      admissions_late t q.score es (q ∷ qs) (omega arith, times.1) late,
    )
    | no reached ↦
        let rest = left_at q.score es in
        let same = count-remove_upto p q.score t es (omega arith) in
        let unused =
          remove_upto-Unused p q.member (window_start p q.score) es (known q.member fresh.0) in
        elim (Bool-cases (ltb (length rest) p.limit)) [
          | inl room ↦ rw (admissions-admit es q qs room unused) (
              ground (
                arith,
                room,
                same,
                count-place (score_within p t) q rest,
                window_bounded t q.score (place q rest) (q ∷ seen) qs
                    (ground (arith, room, length-place q rest)) times.1 fresh.1
                    (λ m h.
                      place-Unused m q rest h.0
                        (remove_upto-Unused p m (window_start p q.score) es (known m h.1))),
              ))
          | inr full ↦ rw (admissions-reject es q qs full) (
              omega (
                arith,
                same,
                window_bounded t q.score rest (q ∷ seen) qs
                    (omega (arith, length-remove_upto p (window_start p q.score) es)) times.1
                    fresh.1
                    (λ m h. remove_upto-Unused p m (window_start p q.score) es (known m h.1)),
              ))
        ]
  ]

  -- A key that expired has lost only what was out of the window.
  admissions-admissions_kept :
      (last : ℕ) (es qs : List Entry)
      → window_ms p ≤ 1000 * p.ttl_seconds
      → Times last qs
      → NotAfter last es
      → admissions p last es qs ≡ admissions_kept p es qs
  unfolding admissions admissions_kept
  admissions-admissions_kept last es [] long times young = refl
  admissions-admissions_kept last es (q ∷ qs) long times young =
      let e = evaluate_window-left_over p last q.score q.member es young times.0 long in
      let later =
        admissions-admissions_kept q.score (evaluate_window p q.score q.member es).1 qs long times.1
          (evaluate_window-NotAfter p last q.score q.member es times.0 young) in
      rw (e, later) refl

  -- In every window of `window_ms` at most `limit` requests are admitted, wherever the window ends,
  -- if the window is no longer than the time to live, the clock does not go back and every request
  -- has a member of its own.
  pub count-admissions-le :
      (t lo : ℕ) (qs : List Entry)
      → window_ms p ≤ 1000 * p.ttl_seconds
      → Times lo qs
      → Fresh [] qs
      → count (within p t) (admissions p lo [] qs) ≤ p.limit
  count-admissions-le t lo qs long times fresh =
      rw (admissions-admissions_kept lo [] qs long times _)
        (omega (arith, window_bounded t lo [] [] qs (omega arith) times fresh (λ m h. h)))
