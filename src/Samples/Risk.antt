-- ===== src/Samples/Risk.antt =====
-- The theorems about the risk scores and the sliding window at sample values.
use agent_pay_sentinel.Prelude.{
  ℕ, ◌+◌, ◌/◌, ◌≤◌, ◌≡◌, ◌⊎◌, ◌&&◌, true, false, [], ◌∷◌, All, List, arith,
}
use agent_pay_sentinel.Analyzer.Passage.{has_near, within_window_exact}
use agent_pay_sentinel.Analyzer.Window.{within_window}
use agent_pay_sentinel.Context.{PolicyContext, load_context}
use agent_pay_sentinel.Pdp.{Security}
use agent_pay_sentinel.Risk.{Rounding, assess}
use agent_pay_sentinel.Risk.Floors.{IsNearest, InRange, forbidden, over_budget, assess_bounds}
use agent_pay_sentinel.Samples.{txn, tables, empty_store}

abbrev pub scores : Rounding
scores = record { ratio = λ n d. n / d; power = λ n d. n / d; hundredths = λ n. (n + 5) / 10 }

pub scores-IsNearest : IsNearest scores
scores-IsNearest = record { above = λ n. omega arith; below = λ n. omega arith }

abbrev evidence : Security
evidence = record {
  injection_confidence = 900;
  injection_labels = [];
  classifier_degraded = false;
  deterministic_confidence = 900;
  source_trust_score = 250;
}

abbrev pub context : PolicyContext
context = load_context txn tables empty_store 0

assess_bounds_example :
    let r = assess scores txn context evidence in
    InRange r.signals
    × (r.weighted_score ≤ 10000)
    × ((forbidden txn context ≡ false) ⊎ (2500 ≤ r.weighted_score))
    × ((over_budget txn context ≡ false) ⊎ (2000 ≤ r.weighted_score))
    × (((forbidden txn context && over_budget txn context) ≡ false) ⊎ (4500 ≤ r.weighted_score))
assess_bounds_example = assess_bounds scores scores-IsNearest txn context evidence

abbrev facet_positions : List (List ℕ)
facet_positions = (2 ∷ 30 ∷ []) ∷ (12 ∷ []) ∷ (9 ∷ 40 ∷ []) ∷ []

within_window_exact_example :
    (within_window facet_positions 16 ≡ true
      → (x : ℕ) × All (λ ps. has_near x 16 ps ≡ true) facet_positions)
    × ((x : ℕ)
        → All (λ ps. has_near x 16 ps ≡ true) facet_positions
        → within_window facet_positions 16 ≡ true)
within_window_exact_example = within_window_exact facet_positions 16 (omega arith)
