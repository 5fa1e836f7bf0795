-- ===== src/Analyzer/Window.antt =====
-- The sliding window of gateway/analyzer/similarity.py, `_within_window`. The marks between the two
-- pointers are a list.
use agent_pay_sentinel.Prelude.{
  ℕ, suc, ◌-◌, Bool, true, false, ◌&&◌, ◌||◌, List, [], ◌∷◌, ◌++◌, length, ltb, leb, eqb,
  if◌then◌else◌,
}

-- A position and the facet that has a word there.
abbrev pub Mark : Type 0
Mark = ℕ × ℕ

-- the order of pairs
abbrev pub before : Mark → Mark → Bool
before (p, f) (q, g) = ltb p q || eqb p q && leb f g

unfoldable pub place : Mark → List Mark → List Mark
place m [] = m ∷ []
place m (k ∷ ks) = let rest = place m ks in if before m k then m ∷ k ∷ ks else k ∷ rest

-- `sorted(...)`
unfoldable pub sort_marks : List Mark → List Mark
unfolding place
sort_marks [] = []
sort_marks (m ∷ ms) = place m (sort_marks ms)

-- `(p, fi) for p in ps`
abbrev pub marks_of : ℕ → List ℕ → List Mark
marks_of facet [] = []
marks_of facet (p ∷ ps) = (p, facet) ∷ marks_of facet ps

abbrev pub all_marks : ℕ → List (List ℕ) → List Mark
all_marks facet [] = []
all_marks facet (ps ∷ rest) = marks_of facet ps ++ all_marks (suc facet) rest

-- The window: the marks in it, how many it has of each facet, and of how many facets it has one.
pub record Seen : Type 0 where
  pub marks : List Mark
  pub counts : ℕ → ℕ
  pub distinct : ℕ

abbrev pub update : (ℕ → ℕ) → ℕ → ℕ → ℕ → ℕ
update counts f n g = if eqb g f then n else counts g

unfoldable pub enter : Mark → Seen → Seen
enter (p, f) s = record {
  marks = s.marks ++ ((p, f) ∷ []);
  counts = update s.counts f (suc (s.counts f));
  distinct = if eqb (s.counts f) 0 then suc s.distinct else s.distinct;
}

-- the left-most mark goes
unfoldable pub leave : ℕ → List Mark → Seen → Seen
leave f rest s = record {
  marks = rest;
  counts = update s.counts f (s.counts f - 1);
  distinct = if eqb (s.counts f - 1) 0 then s.distinct - 1 else s.distinct;
}

-- `while marks[right][0] - marks[left][0] > window`
unfoldable pub shrink : ℕ → ℕ → List Mark → Seen → Seen
unfolding leave
shrink window right [] s = s
shrink window right ((q, g) ∷ ms) s =
    let rest = shrink window right ms (leave g ms s) in if ltb window (right - q) then rest else s

unfoldable pub slide : ℕ → ℕ → List Mark → Seen → Bool
unfolding enter
slide window facets [] s = false
slide window facets ((p, f) ∷ ms) s =
    let s₁ = enter (p, f) s in
    let s₂ = shrink window p s₁.marks s₁ in
    let rest = slide window facets ms s₂ in if eqb s₂.distinct facets then true else rest

abbrev pub nothing_seen : Seen
nothing_seen = record { marks = []; counts = λ f. 0; distinct = 0 }

unfoldable pub within_window : List (List ℕ) → ℕ → Bool
within_window hit_positions window =
    slide window (length hit_positions) (sort_marks (all_marks 0 hit_positions)) nothing_seen
