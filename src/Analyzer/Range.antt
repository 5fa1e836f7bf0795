-- ===== src/Analyzer/Range.antt =====
-- gateway/analyzer/similarity.py: the range of the scores.
use agent_pay_sentinel.Prelude.{
  ℕ, ◌≤◌, String, Bool, List, [], ◌∷◌, Dict, length, ltb, if◌then◌else◌, Bool-cases, inl, inr,
  arith,
}
use agent_pay_sentinel.Analyzer.Similarity.{
  Fraction, of_thousandths, exceeds, Clusters, Detector, Scored, shingles, common, jaccard, better,
  best_of, best_jaccard, intent_confidence, improve, cluster_score, clusters_score, intent_score,
  jaccard_confidence, field_score, fields_score, scan,
}

abbrev pub InUnit : Fraction → Type 0
InUnit f = f.num ≤ f.den

common-le : (xs ys : List String) → common xs ys ≤ length xs
unfolding common
common-le [] ys = omega arith
common-le (x ∷ xs) ys = ground (arith, common-le xs ys)

jaccard-InUnit : (xs ys : List String) → InUnit (jaccard xs ys)
unfolding jaccard
jaccard-InUnit xs ys = omega (arith, common-le xs ys)

choice-InUnit : (t : Bool) (a b : Fraction) → InUnit a → InUnit b → InUnit (if t then a else b)
choice-InUnit t a b ha hb = ground arith

best_of-InUnit :
    (py : Detector) (xs attacks : List String) (best : Fraction)
    → InUnit best
    → InUnit (best_of py xs attacks best)
unfolding best_of better
best_of-InUnit py xs [] best h = h
best_of-InUnit py xs (attack ∷ attacks) best h =
    let corpus = shingles py attack in
    best_of-InUnit py xs attacks _ (
      choice-InUnit (ltb 0 (common xs corpus)) (better best (jaccard xs corpus)) best
        (choice-InUnit (exceeds (jaccard xs corpus) best) (jaccard xs corpus) best
          (jaccard-InUnit xs corpus) h)
        h)

best_jaccard-InUnit : (py : Detector) (xs : List String) → InUnit (best_jaccard py xs)
unfolding best_jaccard
best_jaccard-InUnit py [] = omega arith
best_jaccard-InUnit py (x ∷ xs) =
    best_of-InUnit py (x ∷ xs) py.canonical_attacks (of_thousandths 0) (omega arith)

intent_confidence-InUnit : (hit all : ℕ) → InUnit (intent_confidence hit all)
unfolding intent_confidence
intent_confidence-InUnit hit all = ground arith

jaccard_confidence-InUnit : (f : Fraction) → InUnit f → InUnit (jaccard_confidence f)
unfolding jaccard_confidence
jaccard_confidence-InUnit f h = ground arith

improve-InUnit : (best next : Scored) → InUnit best.0 → InUnit next.0 → InUnit (improve best next).0
unfolding improve
improve-InUnit (best, l) (f, m) h k = elim (Bool-cases (exceeds f best)) [
  | inl e ↦ rw e k
  | inr e ↦ rw e h
]

scored_choice : (t : Bool) (a b : Scored) → InUnit a.0 → InUnit b.0 → InUnit (if t then a else b).0
scored_choice t a b ha hb = elim (Bool-cases t) [ inl e ↦ rw e ha | inr e ↦ rw e hb ]

clusters_score-InUnit :
    (clusters : Clusters) (tokens : List String) (best : Scored)
    → InUnit best.0
    → InUnit (clusters_score clusters tokens best).0
unfolding clusters_score cluster_score
clusters_score-InUnit [] tokens best h = h
clusters_score-InUnit ((label, facets) ∷ clusters) tokens best h =
    clusters_score-InUnit clusters tokens (cluster_score label facets tokens best) (
      scored_choice _ best _ h
        (improve-InUnit best _ h (intent_confidence-InUnit _ (length facets))))

intent_score-InUnit : (py : Detector) (tokens : List String) → InUnit (intent_score py tokens).0
unfolding intent_score
intent_score-InUnit py [] = omega arith
intent_score-InUnit py (t ∷ ts) =
    clusters_score-InUnit py.intent_clusters (t ∷ ts) (of_thousandths 0, "") (omega arith)

field_score-InUnit :
    (py : Detector) (raw : String) (best : Scored)
    → InUnit best.0
    → InUnit (field_score py raw best).0
unfolding field_score
field_score-InUnit py raw best h =
    let norm = py.lower (py.normalize raw) in
    let intent = intent_score py (py.tokens norm) in
    scored_choice _ best _ h (
      improve-InUnit (improve best intent) _
        (improve-InUnit best intent h (intent_score-InUnit py (py.tokens norm)))
        (jaccard_confidence-InUnit _ (best_jaccard-InUnit py (shingles py norm))))

pub fields_score-InUnit :
    (py : Detector) (fields : Dict String) (best : Scored)
    → InUnit best.0
    → InUnit (fields_score py fields best).0
unfolding fields_score
fields_score-InUnit py [] best h = h
fields_score-InUnit py ((name, raw) ∷ fields) best h =
    fields_score-InUnit py fields (field_score py raw best) (field_score-InUnit py raw best h)

-- What `round` documents of a number between 0 and 1: it stays there.
pub record KeepsRange (round : Fraction → ℕ) : Type 0 where
  pub bounded : (f : Fraction) → InUnit f → round f ≤ 1000

pub scan-le :
    (py : Detector) (fields : Dict String)
    → KeepsRange py.round
    → (scan py fields).confidence ≤ 1000
unfolding scan
scan-le py fields sound =
    sound.bounded (fields_score py fields (of_thousandths 0, "")).0
      (fields_score-InUnit py fields (of_thousandths 0, "") (omega arith))
