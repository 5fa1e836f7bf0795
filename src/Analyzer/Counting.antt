-- ===== src/Analyzer/Counting.antt =====
-- gateway/analyzer/similarity.py: the counters of the sliding window against the marks in it.
use mathlib.Core.Path.{subst}
use agent_pay_sentinel.Prelude.{
  ℕ, zero, suc, ◌+◌, ◌-◌, ◌≤◌, ◌<◌, ◌≡◌, refl, ap, ◌&&◌, List, [], ◌∷◌, ◌++◌, All, ltb, leb, eqb,
  if◌then◌else◌, arith, Bool-cases, inl, inr, ◌≢◌,
}
use agent_pay_sentinel.Analyzer.Window.{Mark, Seen, update, enter, leave, shrink}

-- how many marks a facet has
abbrev pub occ : ℕ → List Mark → ℕ
occ f [] = 0
occ f ((p, g) ∷ ms) = (if eqb g f then 1 else 0) + occ f ms

-- how many of them lie within `window` of `x`
abbrev pub occ_in : ℕ → ℕ → ℕ → List Mark → ℕ
occ_in x window f [] = 0
occ_in x window f ((p, g) ∷ ms) =
    (if eqb g f && (leb x p && leb p (x + window)) then 1 else 0) + occ_in x window f ms

-- how many of the facets below `n` have a count
abbrev pub cov : ℕ → (ℕ → ℕ) → ℕ
cov zero c = 0
cov (suc n) c = (if ltb 0 (c n) then 1 else 0) + cov n c

cov-le : (n : ℕ) (c : ℕ → ℕ) → cov n c ≤ n
cov-le zero c = omega arith
cov-le (suc n) c = ground (arith, cov-le n c)

pub cov_full : (n : ℕ) (c : ℕ → ℕ) (f : ℕ) → cov n c ≡ n → f < n → 0 < c f
cov_full zero c f h l = omega arith
cov_full (suc n) c f h l = elim (Bool-cases (eqb f n)) [
  | inl e ↦
      let same : f ≡ n = ground arith in
      let at_n : 0 < c n = ground (arith, cov-le n c) in rw same at_n
  | inr e ↦ let below : f < n = ground arith in cov_full n c f (ground (arith, cov-le n c)) below
]

pub full-cov : (n : ℕ) (c : ℕ → ℕ) → ((f : ℕ) → f < n → 0 < c f) → cov n c ≡ n
full-cov zero c h = refl
full-cov (suc n) c h = ground (arith, h n (omega arith), full-cov n c (λ f l. h f (omega arith)))

cov_above : (n : ℕ) (c : ℕ → ℕ) (f v : ℕ) → n ≤ f → cov n (update c f v) ≡ cov n c
cov_above zero c f v h = refl
cov_above (suc n) c f v h = ground (arith, cov_above n c f v)

cov-enter :
    (n : ℕ) (c : ℕ → ℕ) (f : ℕ)
    → f < n
    → cov n (update c f (suc (c f))) ≡ (if eqb (c f) 0 then suc (cov n c) else cov n c)
cov-enter zero c f h = omega arith
cov-enter (suc n) c f h = elim (Bool-cases (eqb n f)) [
  | inl e ↦
      let same : n ≡ f = ground arith in ground (arith, cov_above n c f (suc (c f)), ap c same)
  | inr e ↦ let below : f < n = ground arith in ground (arith, cov-enter n c f below)
]

cov-pos : (n : ℕ) (c : ℕ → ℕ) (f : ℕ) → f < n → 0 < c f → 0 < cov n c
cov-pos zero c f h pos = omega arith
cov-pos (suc n) c f h pos = elim (Bool-cases (eqb n f)) [
  | inl e ↦ let same : n ≡ f = ground arith in ground (arith, ap c same)
  | inr e ↦ let below : f < n = ground arith in ground (arith, cov-pos n c f below pos)
]

cov-leave :
    (n : ℕ) (c : ℕ → ℕ) (f : ℕ)
    → f < n
    → 0 < c f
    → cov n (update c f (c f - 1)) ≡ (if eqb (c f - 1) 0 then cov n c - 1 else cov n c)
cov-leave zero c f h pos = omega arith
cov-leave (suc n) c f h pos = elim (Bool-cases (eqb n f)) [
  | inl e ↦ let same : n ≡ f = ground arith in ground (arith, cov_above n c f (c f - 1), ap c same)
  | inr e ↦
      let below : f < n = ground arith in
      let some_below : 0 < cov n c = cov-pos n c f below pos in
      ground (arith, cov-leave n c f below)
]

-- The counters of a window are those of its marks.
pub record Counted (n : ℕ) (s : Seen) : Type 0 where
  pub counts : (f : ℕ) → s.counts f ≡ occ f s.marks
  pub distinct : s.distinct ≡ cov n s.counts
  pub facets : All (λ (m : Mark). m.1 < n) s.marks

occ-append : (f : ℕ) (ms ks : List Mark) → occ f (ms ++ ks) ≡ occ f ms + occ f ks
occ-append f [] ks = omega arith
occ-append f ((p, g) ∷ ms) ks = omega (arith, occ-append f ms ks)

pub occ_in-append :
    (x w f : ℕ) (ms ks : List Mark) → occ_in x w f (ms ++ ks) ≡ occ_in x w f ms + occ_in x w f ks
occ_in-append x w f [] ks = omega arith
occ_in-append x w f ((p, g) ∷ ms) ks = omega (arith, occ_in-append x w f ms ks)

pub occ_in-le : (x w f : ℕ) (ms : List Mark) → occ_in x w f ms ≤ occ f ms
occ_in-le x w f [] = omega arith
occ_in-le x w f ((p, g) ∷ ms) = ground (arith, occ_in-le x w f ms)

pub All-append {ℓ κ} :
    {A : Type ℓ} (P : A → Type κ) (xs ys : List A) → All P xs → All P ys → All P (xs ++ ys)
All-append P [] ys h k = k
All-append P (x ∷ xs) ys (h, hs) k = (h, All-append P xs ys hs k)

-- a counter that is set to what the marks have now, and the others as they were
updated :
    (c : ℕ → ℕ) (f v : ℕ) (ms ks : List Mark)
    → ((g : ℕ) → c g ≡ occ g ms)
    → v ≡ occ f ks
    → ((g : ℕ) → g ≢ f → occ g ks ≡ occ g ms)
    → (g : ℕ) → update c f v g ≡ occ g ks
updated c f v ms ks counts own others g = elim (Bool-cases (eqb g f)) [
  | inl e ↦ let same : g ≡ f = ground arith in ground (arith, own, ap (λ (k : ℕ). occ k ks) same)
  | inr e ↦ let apart : g ≢ f = ground arith in ground (arith, others g apart, counts g)
]

pub enter-Counted : (n p f : ℕ) (s : Seen) → f < n → Counted n s → Counted n (enter (p, f) s)
unfolding enter
enter-Counted n p f s h c = record {
  counts =
      updated s.counts f (suc (s.counts f)) s.marks (s.marks ++ ((p, f) ∷ [])) c.counts
        (ground (arith, occ-append f s.marks ((p, f) ∷ []), c.counts f))
        (λ g apart. ground (arith, occ-append g s.marks ((p, f) ∷ [])));
  distinct = ground (arith, cov-enter n s.counts f h, c.distinct);
  facets = All-append (λ (m : Mark). m.1 < n) s.marks ((p, f) ∷ []) c.facets (h, tt);
}

leave-marks : (f : ℕ) (ms : List Mark) (s : Seen) → (leave f ms s).marks ≡ ms
unfolding leave
leave-marks f ms s = refl

leave-Counted :
    (n q g : ℕ) (ms : List Mark) (s : Seen)
    → s.marks ≡ (q, g) ∷ ms
    → Counted n s
    → Counted n (leave g ms s)
unfolding leave
leave-Counted n q g ms s e c =
    let inside : All (λ (m : Mark). m.1 < n) ((q, g) ∷ ms) =
      subst (λ (l : List Mark). All (λ (m : Mark). m.1 < n) l) e c.facets in
    let counts : (f : ℕ) → s.counts f ≡ occ f ((q, g) ∷ ms) =
      λ f. subst (λ (l : List Mark). s.counts f ≡ occ f l) e (c.counts f) in
    record {
      counts =
          updated s.counts g (s.counts g - 1) ((q, g) ∷ ms) ms counts (ground (arith, counts g))
            (λ f apart. ground arith);
      distinct = ground (arith, cov-leave n s.counts g (inside.0), counts g, c.distinct);
      facets = inside.1;
    }

-- Shrinking keeps the counters, drops only marks that are out of the window, and so keeps what lies
-- within any window that the right-most mark does not exceed.
pub shrink-Counted :
    (n window right : ℕ) (ms : List Mark) (s : Seen)
    → s.marks ≡ ms
    → Counted n s
    → Counted n (shrink window right ms s)
unfolding shrink
shrink-Counted n window right [] s e c = c
shrink-Counted n window right ((q, g) ∷ ms) s e c = elim (Bool-cases (ltb window (right - q))) [
  | inl out ↦ rw out (
      shrink-Counted n window right ms (leave g ms s) (leave-marks g ms s)
        (leave-Counted n q g ms s e c))
  | inr stays ↦ rw stays c
]

pub shrink-keeps :
    (x window f right : ℕ) (ms : List Mark) (s : Seen)
    → s.marks ≡ ms
    → right ≤ x + window
    → occ_in x window f (shrink window right ms s).marks ≡ occ_in x window f ms
unfolding shrink
shrink-keeps x window f right [] s e h = ap (occ_in x window f) e
shrink-keeps x window f right ((q, g) ∷ ms) s e h = elim (Bool-cases (ltb window (right - q))) [
  | inl out ↦
      rw out
        (ground (arith, shrink-keeps x window f right ms (leave g ms s) (leave-marks g ms s) h))
  | inr stays ↦ rw stays (ap (occ_in x window f) e)
]

pub shrink-le :
    (x window f right : ℕ) (ms : List Mark) (s : Seen)
    → s.marks ≡ ms
    → occ_in x window f (shrink window right ms s).marks ≤ occ_in x window f ms
unfolding shrink
shrink-le x window f right [] s e = omega (arith, ap (occ_in x window f) e)
shrink-le x window f right ((q, g) ∷ ms) s e = elim (Bool-cases (ltb window (right - q))) [
  | inl out ↦
      rw out (omega (arith, shrink-le x window f right ms (leave g ms s) (leave-marks g ms s)))
  | inr stays ↦ rw stays (omega (arith, ap (occ_in x window f) e))
]
