-- ===== src/Analyzer/Similarity.antt =====
-- Resemblance to known injections, gateway/analyzer/similarity.py. The corpus, the clusters, the
-- regular expressions and `normalize` are arguments. Fractions are compared exactly, in place of their
-- floats, and the rounding of a fraction to thousandths is an argument.
use Prim.Native.String.{count}
use agent_pay_sentinel.Prelude.{
  ℕ, zero, suc, ◌+◌, ◌-◌, ◌*◌, String, Bool, not, ◌||◌, List, [], ◌∷◌, Dict, length, elem, ltb,
  ◌==◌, if◌then◌else◌,
}
use agent_pay_sentinel.Analyzer.Window.{within_window}
use agent_pay_sentinel.Slices.{slice}

-- A fraction with a positive denominator.
pub record Fraction : Type 0 where
  pub num : ℕ
  pub den : ℕ

abbrev pub of_thousandths : ℕ → Fraction
of_thousandths n = record { num = n; den = 1000 }

abbrev pub exceeds : Fraction → Fraction → Bool
exceeds a b = ltb (b.num * a.den) (a.num * b.den)

-- An intent's label and its facets.
abbrev pub Clusters : Type 0
Clusters = List (String × List (List String))

-- `squish` collapses and strips white space, `tokens` is `_TOKEN.findall`, `round` gives thousandths.
pub record Detector : Type 0 where
  pub canonical_attacks : List String
  pub intent_clusters : Clusters
  pub squish : String → String
  pub normalize : String → String
  pub lower : String → String
  pub strip : String → String
  pub tokens : String → List String
  pub round : Fraction → ℕ

abbrev pub shingle_n : ℕ
shingle_n = 4

abbrev pub intent_window : ℕ
intent_window = 16

-- `s[i:i+4]` for the next so many `i`
grams : ℕ → ℕ → String → List String
grams zero i s = []
grams (suc n) i s = slice i (i + shingle_n) s ∷ grams n (suc i) s

pub to_set : List String → List String
to_set [] = []
to_set (x ∷ xs) = let rest = to_set xs in if elem x xs then rest else x ∷ rest

shingles_of : String → List String
unfolding grams to_set
shingles_of squished =
    if ltb (count squished) shingle_n
    then (if squished == "" then [] else squished ∷ [])
    else to_set (grams (count squished - shingle_n + 1) 0 squished)

unfoldable pub shingles : Detector → String → List String
unfolding shingles_of
shingles py text = shingles_of (py.squish text)

-- how many of the first set are in the second
unfoldable pub common : List String → List String → ℕ
common [] ys = 0
common (x ∷ xs) ys = (if elem x ys then 1 else 0) + common xs ys

-- the Jaccard index of two sets that meet
unfoldable pub jaccard : List String → List String → Fraction
unfolding common
jaccard xs ys = record { num = common xs ys; den = length xs + (length ys - common ys xs) }

unfoldable pub better : Fraction → Fraction → Fraction
better best f = if exceeds f best then f else best

unfoldable pub best_of : Detector → List String → List String → Fraction → Fraction
unfolding shingles common jaccard better
best_of py field_shingles [] best = best
best_of py field_shingles (attack ∷ attacks) best =
    let corpus = shingles py attack in
    best_of py field_shingles attacks (
      if ltb 0 (common field_shingles corpus)
      then better best (jaccard field_shingles corpus)
      else best)

unfoldable pub best_jaccard : Detector → List String → Fraction
unfolding best_of
best_jaccard py [] = of_thousandths 0
best_jaccard py (x ∷ xs) = best_of py (x ∷ xs) py.canonical_attacks (of_thousandths 0)

-- The sorted positions of the words of a facet: in the order of the text.
positions : ℕ → List String → List String → List ℕ
positions i facet [] = []
positions i facet (t ∷ ts) =
    let rest = positions (suc i) facet ts in if elem t facet then i ∷ rest else rest

-- the facets with a word in the text
hits : List (List String) → List String → List (List ℕ)
unfolding positions
hits [] tokens = []
hits (facet ∷ facets) tokens =
    let rest = hits facets tokens in
    elim (positions 0 facet tokens) [ [] ↦ rest | p ∷ ps ↦ (p ∷ ps) ∷ rest ]

-- `min(0.75, 0.30 + 0.45 * frac)`
unfoldable pub intent_confidence : ℕ → ℕ → Fraction
intent_confidence hit all =
    let c : Fraction = record { num = 300 * all + 450 * hit; den = 1000 * all } in
    if exceeds c (of_thousandths 750) then of_thousandths 750 else c

abbrev pub Scored : Type 0
Scored = Fraction × String

-- the better of two, the earlier one where they are equal
unfoldable pub improve : Scored → Scored → Scored
improve (best, best_label) (f, label) = if exceeds f best then (f, label) else (best, best_label)

unfoldable pub cluster_score : String → List (List String) → List String → Scored → Scored
unfolding improve intent_confidence hits
cluster_score label facets tokens best =
    let hit_positions = hits facets tokens in
    if ltb (length hit_positions) 2 || not (within_window hit_positions intent_window)
    then best
    else improve best (intent_confidence (length hit_positions) (length facets), label)

unfoldable pub clusters_score : Clusters → List String → Scored → Scored
unfolding cluster_score
clusters_score [] tokens best = best
clusters_score ((label, facets) ∷ clusters) tokens best =
    clusters_score clusters tokens (cluster_score label facets tokens best)

unfoldable pub intent_score : Detector → List String → Scored
unfolding clusters_score
intent_score py [] = (of_thousandths 0, "")
intent_score py (t ∷ ts) = clusters_score py.intent_clusters (t ∷ ts) (of_thousandths 0, "")

-- `jac if jac >= 0.5 else (0.5 if jac >= 0.35 else 0.0)`
unfoldable pub jaccard_confidence : Fraction → Fraction
jaccard_confidence jac =
    if exceeds (of_thousandths 500) jac
    then (if exceeds (of_thousandths 350) jac then of_thousandths 0 else of_thousandths 500)
    else jac

unfoldable pub field_score : Detector → String → Scored → Scored
unfolding improve jaccard_confidence
field_score py raw best =
    if raw == "" || py.strip raw == ""
    then best
    else (let norm = py.lower (py.normalize raw) in
        improve (improve best (intent_score py (py.tokens norm)))
          (jaccard_confidence (best_jaccard py (shingles py norm)), "resembles_known_injection"))

unfoldable pub fields_score : Detector → Dict String → Scored → Scored
unfolding field_score
fields_score py [] best = best
fields_score py ((name, raw) ∷ fields) best = fields_score py fields (field_score py raw best)

pub record SimilarityResult : Type 0 where
  pub confidence : ℕ
  pub label : String

-- Below the gate the score names no label.
unfoldable pub scan : Detector → Dict String → SimilarityResult
unfolding fields_score
scan py fields =
    let (best, label) = fields_score py fields (of_thousandths 0, "") in
    record {
      confidence = py.round best;
      label = if exceeds (of_thousandths 500) best then "" else label;
    }
