-- ===== src/Analyzer/Covering.antt =====
-- gateway/analyzer/similarity.py: the sliding window against its plain description, on sorted marks.
use mathlib.Core.Path.{subst}
use agent_pay_sentinel.Prelude.{
  ℕ, ◌+◌, ◌-◌, ◌≤◌, ◌<◌, ◌≡◌, ◌≢◌, refl, sym, ap, ◌∙◌, true, List, [], ◌∷◌, ◌++◌, All, ltb, leb,
  eqb, arith, Bool-cases, inl, inr,
}
use agent_pay_sentinel.Analyzer.Counting.{
  occ, occ_in, cov_full, full-cov, Counted, occ_in-append, occ_in-le, All-append, enter-Counted,
  shrink-Counted, shrink-keeps, shrink-le,
}
use agent_pay_sentinel.Analyzer.Window.{Mark, Seen, enter, leave, shrink, slide}

-- Positions do not fall.
abbrev pub Ordered : List Mark → Type 0
Ordered [] = Unit
Ordered (m ∷ ms) = All (λ (k : Mark). m.0 ≤ k.0) ms × Ordered ms

-- The mark lies in the window that ends at a position.
abbrev Near : ℕ → ℕ → Mark → Type 0
Near window right m = (right ≤ m.0 + window) × (m.0 ≤ right)

All-map {ℓ} :
    {A : Type ℓ} (P Q : A → Type 0) (xs : List A) → ((a : A) → P a → Q a) → All P xs → All Q xs
All-map P Q [] h k = tt
All-map P Q (x ∷ xs) h (k, ks) = (h x k, All-map P Q xs h ks)

Ordered-last :
    (ms ks : List Mark) (m : Mark) → Ordered (ms ++ (m ∷ ks)) → All (λ (k : Mark). k.0 ≤ m.0) ms
Ordered-last [] ks m h = tt
Ordered-last (j ∷ ms) ks m (h, hs) = (first ms h, Ordered-last ms ks m hs)
  where
    first : (l : List Mark) → All (λ (k : Mark). j.0 ≤ k.0) (l ++ (m ∷ ks)) → j.0 ≤ m.0
    first [] (a, rest) = a
    first (i ∷ l) (a, rest) = first l rest

shrink-Ordered :
    (window right : ℕ) (ms ks : List Mark) (s : Seen)
    → s.marks ≡ ms
    → Ordered (ms ++ ks)
    → Ordered ((shrink window right ms s).marks ++ ks)
unfolding shrink leave
shrink-Ordered window right [] ks s e h = subst (λ l. Ordered (l ++ ks)) (sym e) h
shrink-Ordered window right ((q, g) ∷ ms) ks s e (h, hs) =
    elim (Bool-cases (ltb window (right - q))) [
      | inl out ↦ rw out (shrink-Ordered window right ms ks (leave g ms s) refl hs)
      | inr stays ↦ rw stays (subst (λ l. Ordered (l ++ ks)) (sym e) (h, hs))
    ]

-- What is left after shrinking lies in the window.
shrink-Near :
    (window right : ℕ) (ms : List Mark) (s : Seen)
    → s.marks ≡ ms
    → Ordered ms
    → All (λ (k : Mark). k.0 ≤ right) ms
    → All (Near window right) (shrink window right ms s).marks
unfolding shrink leave
shrink-Near window right [] s e h below = subst (All (Near window right)) (sym e) tt
shrink-Near window right ((q, g) ∷ ms) s e (h, hs) (b, below) =
    elim (Bool-cases (ltb window (right - q))) [
      | inl out ↦ rw out (shrink-Near window right ms (leave g ms s) refl hs below)
      | inr stays ↦
          let near : right ≤ q + window = ground arith in
          rw stays (subst (All (Near window right)) (sym e) ((near, b), rest ms near h below))
    ]
  where
    rest :
        (l : List Mark)
        → right ≤ q + window
        → All (λ (k : Mark). q ≤ k.0) l
        → All (λ (k : Mark). k.0 ≤ right) l
        → All (Near window right) l
    rest [] near h b = tt
    rest (m ∷ l) near (h, hs) (b, bs) = ((omega arith, b), rest l near hs bs)

-- Marks of a window are counted by it.
Near-counted :
    (window right f : ℕ) (ms : List Mark)
    → All (Near window right) ms
    → occ f ms ≤ occ_in (right - window) window f ms
Near-counted window right f [] h = omega arith
Near-counted window right f ((p, g) ∷ ms) ((a, b), hs) =
    ground (arith, Near-counted window right f ms hs)

-- Marks beyond a window are not counted by it.
beyond :
    (x window f p : ℕ) (ms : List Mark)
    → All (λ (k : Mark). p ≤ k.0) ms
    → x + window < p
    → occ_in x window f ms ≡ 0
beyond x window f p [] h l = refl
beyond x window f p ((q, g) ∷ ms) (h, hs) l = ground (arith, beyond x window f p ms hs l)

append_snoc : (ms ks : List Mark) (m : Mark) → (ms ++ (m ∷ [])) ++ ks ≡ ms ++ (m ∷ ks)
append_snoc [] ks m = refl
append_snoc (j ∷ ms) ks m = ap (λ l. j ∷ l) (append_snoc ms ks m)

Ordered-left : (ms ks : List Mark) → Ordered (ms ++ ks) → Ordered ms
Ordered-left [] ks h = tt
Ordered-left (m ∷ ms) ks (h, hs) = (left ms h, Ordered-left ms ks hs)
  where
    left :
        (l : List Mark) → All (λ (k : Mark). m.0 ≤ k.0) (l ++ ks) → All (λ (k : Mark). m.0 ≤ k.0) l
    left [] h = tt
    left (i ∷ l) (h, hs) = (h, left l hs)

Ordered-right : (ms ks : List Mark) → Ordered (ms ++ ks) → Ordered ks
Ordered-right [] ks h = h
Ordered-right (m ∷ ms) ks (h, hs) = Ordered-right ms ks hs

module _ (window n : ℕ) where
  -- One step of the loop: the mark comes in, and the window shrinks.
  stepped : ℕ → ℕ → Seen → Seen
  stepped p f s = shrink window p (enter (p, f) s).marks (enter (p, f) s)

  entered : (p f : ℕ) (s : Seen) → (enter (p, f) s).marks ≡ s.marks ++ ((p, f) ∷ [])
  unfolding enter
  entered p f s = refl

  stepped-Counted : (p f : ℕ) (s : Seen) → f < n → Counted n s → Counted n (stepped p f s)
  unfolding stepped
  stepped-Counted p f s h c =
      shrink-Counted n window p (enter (p, f) s).marks (enter (p, f) s) refl
        (enter-Counted n p f s h c)

  stepped-Ordered :
      (p f : ℕ) (ms : List Mark) (s : Seen)
      → Ordered (s.marks ++ ((p, f) ∷ ms))
      → Ordered ((stepped p f s).marks ++ ms)
  unfolding stepped enter
  stepped-Ordered p f ms s h =
      shrink-Ordered window p (s.marks ++ ((p, f) ∷ [])) ms (enter (p, f) s) refl
        (subst Ordered (sym (append_snoc s.marks ms (p, f))) h)

  stepped-Near :
      (p f : ℕ) (ms : List Mark) (s : Seen)
      → Ordered (s.marks ++ ((p, f) ∷ ms))
      → All (Near window p) (stepped p f s).marks
  unfolding stepped enter
  stepped-Near p f ms s h =
      shrink-Near window p (s.marks ++ ((p, f) ∷ [])) (enter (p, f) s) refl
        (Ordered-left (s.marks ++ ((p, f) ∷ [])) ms
          (subst Ordered (sym (append_snoc s.marks ms (p, f))) h))
        (All-append (λ (k : Mark). k.0 ≤ p) s.marks ((p, f) ∷ []) (Ordered-last s.marks ms (p, f) h)
          (omega arith, tt))

  -- what a window counts among the marks seen and the marks to come
  abbrev total : ℕ → ℕ → List Mark → Seen → ℕ
  total x f ms s = occ_in x window f s.marks + occ_in x window f ms

  stepped_total :
      (x g p f : ℕ) (ms : List Mark) (s : Seen)
      → total x g ms (stepped p f s) ≤ total x g ((p, f) ∷ ms) s
  unfolding stepped enter
  stepped_total x g p f ms s = omega (
    arith,
    shrink-le x window g p (s.marks ++ ((p, f) ∷ [])) (enter (p, f) s) refl,
    occ_in-append x window g s.marks ((p, f) ∷ []),
  )

  stepped_keeps :
      (x g p f : ℕ) (ms : List Mark) (s : Seen)
      → p ≤ x + window
      → total x g ms (stepped p f s) ≡ total x g ((p, f) ∷ ms) s
  unfolding stepped enter
  stepped_keeps x g p f ms s h = omega (
    arith,
    shrink-keeps x window g p (s.marks ++ ((p, f) ∷ [])) (enter (p, f) s) refl h,
    occ_in-append x window g s.marks ((p, f) ∷ []),
  )

  abbrev FacetsBelow : List Mark → Type 0
  FacetsBelow ms = All (λ (m : Mark). m.1 < n) ms

  full_near :
      (p f g : ℕ) (ms : List Mark) (s : Seen)
      → Counted n (stepped p f s)
      → Ordered (s.marks ++ ((p, f) ∷ ms))
      → (stepped p f s).distinct ≡ n
      → g < n
      → 0 < total (p - window) g ((p, f) ∷ ms) s
  full_near p f g ms s c o full h = omega (
    arith,
    cov_full n (stepped p f s).counts g (sym c.distinct ∙ full) h,
    c.counts g,
    Near-counted window p g (stepped p f s).marks (stepped-Near p f ms s o),
    stepped_total (p - window) g p f ms s,
  )

  -- Where the loop answers true, some window holds a mark of every facet.
  pub slide_sound :
      (ms : List Mark) (s : Seen)
      → Counted n s
      → FacetsBelow ms
      → Ordered (s.marks ++ ms)
      → slide window n ms s ≡ true
      → (x : ℕ) × ((f : ℕ) → f < n → 0 < total x f ms s)
  unfolding slide stepped
  slide_sound [] s c below o h = cc
  slide_sound ((p, f) ∷ ms) s c (b, below) o h =
      let s' = stepped p f s in
      let c' = stepped-Counted p f s b c in
      elim (Bool-cases (eqb s'.distinct n)) [
        | inl e ↦
            let full : s'.distinct ≡ n = ground arith in
            (p - window, λ g l. full_near p f g ms s c' o full l)
        | inr e ↦
            let h' : slide window n ms s' ≡ true = rw e at h in
            let (x, covers) = slide_sound ms s' c' below (stepped-Ordered p f ms s o) h' in
            (x, λ g l. omega (arith, covers g l, stepped_total x g p f ms s))
      ]

  all_seen :
      (x : ℕ) (s : Seen)
      → Counted n s
      → ((f : ℕ) → f < n → 0 < occ_in x window f s.marks)
      → s.distinct ≡ n
  all_seen x s c seen =
      c.distinct
      ∙ full-cov n s.counts
          (λ g l. omega (arith, seen g l, occ_in-le x window g s.marks, c.counts g))

  -- Where some window holds a mark of every facet, the loop answers true.
  pub slide_complete :
      (x : ℕ) (ms : List Mark) (s : Seen)
      → Counted n s
      → FacetsBelow ms
      → Ordered (s.marks ++ ms)
      → s.distinct ≢ n
      → ((f : ℕ) → f < n → 0 < total x f ms s)
      → slide window n ms s ≡ true
  unfolding slide stepped
  slide_complete x [] s c below o partial covers =
      absurd (partial (all_seen x s c (λ g l. omega (arith, covers g l))))
  slide_complete x ((p, f) ∷ ms) s c (b, below) o partial covers =
      let s' = stepped p f s in
      let c' = stepped-Counted p f s b c in
      elim (Bool-cases (leb p (x + window))) [
        | inl near ↦
            let in_range : p ≤ x + window = ground arith in
            elim (Bool-cases (eqb s'.distinct n)) [
              | inl e ↦ rw e refl
              | inr e ↦
                  let partial' : s'.distinct ≢ n = ground arith in
                  rw e (
                    slide_complete x ms s' c' below (stepped-Ordered p f ms s o) partial'
                      (λ g l. omega (arith, covers g l, stepped_keeps x g p f ms s in_range)))
            ]
        | inr far ↦
            let out : x + window < p = ground arith in
            let later = Ordered-right s.marks ((p, f) ∷ ms) o in
            let none_left : (g : ℕ) → occ_in x window g ((p, f) ∷ ms) ≡ 0 =
              λ g. beyond x window g p ((p, f) ∷ ms) (omega arith, later.0) out in
            absurd (partial (all_seen x s c (λ g l. omega (arith, covers g l, none_left g))))
      ]
