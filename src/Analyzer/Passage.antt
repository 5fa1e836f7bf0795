-- ===== src/Analyzer/Passage.antt =====
-- gateway/analyzer/similarity.py: `_within_window` against its plain description.
use agent_pay_sentinel.Prelude.{
  ℕ, zero, suc, ◌+◌, ◌≤◌, ◌<◌, ◌≡◌, ◌≢◌, refl, Bool, true, false, ◌&&◌, ◌||◌, List, [], ◌∷◌, All,
  length, leb, eqb, arith, Bool-cases, inl, inr,
}
use agent_pay_sentinel.Analyzer.Counting.{occ_in, occ_in-append, All-append, Counted, cov}
use agent_pay_sentinel.Analyzer.Covering.{Ordered, slide_sound, slide_complete}
use agent_pay_sentinel.Analyzer.Window.{
  Mark, nothing_seen, before, place, sort_marks, marks_of, all_marks, within_window,
}

-- one of the positions is `x` or at most `window` after it
abbrev pub has_near : ℕ → ℕ → List ℕ → Bool
has_near x window [] = false
has_near x window (p ∷ ps) = leb x p && leb p (x + window) || has_near x window ps

own_marks : (x w k : ℕ) (ps : List ℕ) → 0 < occ_in x w k (marks_of k ps) → has_near x w ps ≡ true
own_marks x w k [] h = absurd (omega arith)
own_marks x w k (p ∷ ps) h = elim (Bool-cases (leb x p && leb p (x + w))) [
  | inl e ↦ rw e refl
  | inr e ↦ rw e (own_marks x w k ps (ground arith))
]

near_marks : (x w k : ℕ) (ps : List ℕ) → has_near x w ps ≡ true → 0 < occ_in x w k (marks_of k ps)
near_marks x w k [] h = cc
near_marks x w k (p ∷ ps) h = elim (Bool-cases (leb x p && leb p (x + w))) [
  | inl e ↦ ground arith
  | inr e ↦ let h' : has_near x w ps ≡ true = rw e at h in ground (arith, near_marks x w k ps h')
]

foreign_marks : (x w f k : ℕ) (ps : List ℕ) → f ≢ k → occ_in x w f (marks_of k ps) ≡ 0
foreign_marks x w f k [] h = refl
foreign_marks x w f k (p ∷ ps) h = ground (arith, foreign_marks x w f k ps h)

later_marks : (x w f k : ℕ) (hits : List (List ℕ)) → f < k → occ_in x w f (all_marks k hits) ≡ 0
later_marks x w f k [] h = refl
later_marks x w f k (ps ∷ hits) h = omega (
  arith,
  occ_in-append x w f (marks_of k ps) (all_marks (suc k) hits),
  foreign_marks x w f k ps (omega arith),
  later_marks x w f (suc k) hits (omega arith),
)

covered_near :
    (x w k : ℕ) (hits : List (List ℕ))
    → ((f : ℕ) → k ≤ f → f < k + length hits → 0 < occ_in x w f (all_marks k hits))
    → All (λ ps. has_near x w ps ≡ true) hits
covered_near x w k [] h = tt
covered_near x w k (ps ∷ hits) h = (
  own_marks x w k ps (
      omega (
        arith,
        h k (omega arith) (omega arith),
        occ_in-append x w k (marks_of k ps) (all_marks (suc k) hits),
        later_marks x w k (suc k) hits (omega arith),
      )),
  covered_near x w (suc k) hits (λ f a b. omega (
    arith,
    h f (omega arith) (omega arith),
    occ_in-append x w f (marks_of k ps) (all_marks (suc k) hits),
    foreign_marks x w f k ps (omega arith),
  )),
)

near_covered :
    (x w k : ℕ) (hits : List (List ℕ))
    → All (λ ps. has_near x w ps ≡ true) hits
    → (f : ℕ) → k ≤ f
    → f < k + length hits
    → 0 < occ_in x w f (all_marks k hits)
near_covered x w k [] h f a b = omega arith
near_covered x w k (ps ∷ hits) (h, hs) f a b = elim (Bool-cases (eqb f k)) [
  | inl e ↦
      let same : f ≡ k = ground arith in
      rw same (
        omega (
          arith,
          occ_in-append x w k (marks_of k ps) (all_marks (suc k) hits),
          near_marks x w k ps h,
        ))
  | inr e ↦
      let apart : f ≢ k = ground arith in
      omega (
        arith,
        occ_in-append x w f (marks_of k ps) (all_marks (suc k) hits),
        near_covered x w (suc k) hits hs f (omega arith) (omega arith),
      )
]

-- Sorting keeps the marks, and orders them.
occ_in-place :
    (x w f : ℕ) (m : Mark) (ms : List Mark) → occ_in x w f (place m ms) ≡ occ_in x w f (m ∷ ms)
unfolding place
occ_in-place x w f m [] = refl
occ_in-place x w f m (k ∷ ks) = elim (Bool-cases (before m k)) [
  | inl e ↦ rw e refl
  | inr e ↦ rw e (omega (arith, occ_in-place x w f m ks))
]

occ_in-sort_marks : (x w f : ℕ) (ms : List Mark) → occ_in x w f (sort_marks ms) ≡ occ_in x w f ms
unfolding sort_marks
occ_in-sort_marks x w f [] = refl
occ_in-sort_marks x w f (m ∷ ms) =
    omega (arith, occ_in-place x w f m (sort_marks ms), occ_in-sort_marks x w f ms)

All-place : (P : Mark → Type 0) (m : Mark) (ms : List Mark) → P m → All P ms → All P (place m ms)
unfolding place
All-place P m [] h hs = (h, tt)
All-place P m (k ∷ ks) h (hk, hs) = elim (Bool-cases (before m k)) [
  | inl e ↦ rw e (h, (hk, hs))
  | inr e ↦ rw e (hk, All-place P m ks h hs)
]

All-sort_marks : (P : Mark → Type 0) (ms : List Mark) → All P ms → All P (sort_marks ms)
unfolding sort_marks
All-sort_marks P [] h = tt
All-sort_marks P (m ∷ ms) (h, hs) = All-place P m (sort_marks ms) h (All-sort_marks P ms hs)

from_head :
    (p q : ℕ) (ms : List Mark)
    → p ≤ q
    → All (λ (k : Mark). q ≤ k.0) ms
    → All (λ (k : Mark). p ≤ k.0) ms
from_head p q [] l h = tt
from_head p q (m ∷ ms) l (h, hs) = (omega arith, from_head p q ms l hs)

place-Ordered : (m : Mark) (ms : List Mark) → Ordered ms → Ordered (place m ms)
unfolding place
place-Ordered m [] h = (tt, tt)
place-Ordered m (k ∷ ks) (h, hs) = elim (Bool-cases (before m k)) [
  | inl e ↦
      let first : m.0 ≤ k.0 = ground arith in rw e ((first, from_head m.0 k.0 ks first h), (h, hs))
  | inr e ↦
      let last : k.0 ≤ m.0 = ground arith in
      rw e (All-place (λ (j : Mark). k.0 ≤ j.0) m ks last h, place-Ordered m ks hs)
]

sort_marks-Ordered : (ms : List Mark) → Ordered (sort_marks ms)
unfolding sort_marks
sort_marks-Ordered [] = tt
sort_marks-Ordered (m ∷ ms) = place-Ordered m (sort_marks ms) (sort_marks-Ordered ms)

marks_below : (n k : ℕ) (ps : List ℕ) → k < n → All (λ (m : Mark). m.1 < n) (marks_of k ps)
marks_below n k [] h = tt
marks_below n k (p ∷ ps) h = (h, marks_below n k ps h)

facets_below :
    (n k : ℕ) (hits : List (List ℕ))
    → k + length hits ≤ n
    → All (λ (m : Mark). m.1 < n) (all_marks k hits)
facets_below n k [] h = tt
facets_below n k (ps ∷ hits) h =
    All-append (λ (m : Mark). m.1 < n) (marks_of k ps) (all_marks (suc k) hits)
      (marks_below n k ps (omega arith)) (facets_below n (suc k) hits (omega arith))

cov_nothing : (n : ℕ) → cov n (λ f. 0) ≡ 0
cov_nothing zero = refl
cov_nothing (suc n) = omega (arith, cov_nothing n)

nothing-Counted : (n : ℕ) → Counted n nothing_seen
nothing-Counted n = record {
  counts = λ f. refl;
  distinct = omega (arith, cov_nothing n);
  facets = tt;
}

-- For a list of at least one facet, `_within_window` answers true exactly where for some position of
-- the text every facet has a position at most `window` after it, both ends included: a stretch of
-- `window + 1` tokens.
pub within_window_exact :
    (hits : List (List ℕ)) (window : ℕ)
    → 0 < length hits
    → (within_window hits window ≡ true → (x : ℕ) × All (λ ps. has_near x window ps ≡ true) hits)
      × ((x : ℕ) → All (λ ps. has_near x window ps ≡ true) hits → within_window hits window ≡ true)
unfolding within_window
within_window_exact hits window some_facet =
    let n = length hits in
    let ms = sort_marks (all_marks 0 hits) in
    let below =
      All-sort_marks (λ (m : Mark). m.1 < n) (all_marks 0 hits)
        (facets_below n 0 hits (omega arith)) in
    let ordered = sort_marks-Ordered (all_marks 0 hits) in
    (
      λ found.
          let (x, covers) =
            slide_sound window n ms nothing_seen (nothing-Counted n) below ordered found in
          (
            x,
            covered_near x window 0 hits (λ f a b.
                omega
                  (arith, covers f (omega arith), occ_in-sort_marks x window f (all_marks 0 hits))),
          ),
      λ x near.
          slide_complete window n x ms nothing_seen (nothing-Counted n) below ordered (omega arith)
            (λ f b. omega (
              arith,
              near_covered x window 0 hits near f (omega arith) (omega arith),
              occ_in-sort_marks x window f (all_marks 0 hits),
            )),
    )
