-- ===== src/Analyzer/Matches.antt =====
-- gateway/analyzer/rules.py under `combine`: what a match of a rule guarantees.
use agent_pay_sentinel.Prelude.{
  ℕ, ◌*◌, ◌-◌, ◌≤◌, min, max, String, ◌≡◌, ◌≢◌, Bool, some, List, [], ◌∷◌, ◌++◌, Dict, arith,
  eq-false_of_ne, if◌then◌else◌,
}
use agent_pay_sentinel.Analyzer.Floor.{layers_floor}
use agent_pay_sentinel.Analyzer.Rules.{
  Rule, Scanner, RuleFinding, top_weight, labels_of, distinct, rule_confidence, saw_invisible,
  scan_field, scan_fields, scan,
}
use agent_pay_sentinel.Analyzer.Trust.{IsNearest, combine}
use agent_pay_sentinel.Schemas.{SourceType}

top_weight-append :
    (fs gs : List RuleFinding) → top_weight (fs ++ gs) ≡ max (top_weight fs) (top_weight gs)
top_weight-append [] gs = omega arith
top_weight-append (f ∷ fs) gs = omega (arith, top_weight-append fs gs)

pub rule_confidence_bounds :
    (invisible : Bool) (fs : List RuleFinding)
    → (min 1000 (top_weight fs) ≤ rule_confidence invisible fs)
      × (rule_confidence invisible fs ≤ 1000)
unfolding rule_confidence
rule_confidence_bounds invisible [] = (omega arith, ground arith)
rule_confidence_bounds invisible (f ∷ fs) =
    let d = 50 * (distinct (labels_of (f ∷ fs)) - 1) in
    let n : ℕ = if invisible then 50 else 0 in (omega arith, omega arith)

module _ (py : Scanner) (rule : Rule) (before after : List Rule)
    (listed : py.rules ≡ before ++ (rule ∷ after)) (raw : String) (start stop : ℕ)
    (matches : rule.search (py.normalize raw) ≡ some (start, stop)) where
  field_weight :
      (field_name : String) (rules : List Rule)
      → rule.weight
        ≤ top_weight (scan_field py field_name (py.normalize raw) (rules ++ (rule ∷ after)))
  unfolding scan_field
  field_weight field_name [] = rw matches (omega arith)
  field_weight field_name (r ∷ rules) = omega (
    arith,
    top_weight-append _ (scan_field py field_name (py.normalize raw) (rules ++ (rule ∷ after))),
    field_weight field_name rules,
  )

  fields_weight :
      (field_name : String) (head tail : Dict String)
      → raw ≢ ""
      → rule.weight ≤ top_weight (scan_fields py (head ++ ((field_name, raw) ∷ tail)))
  unfolding scan_fields scan_field
  fields_weight field_name [] tail present =
      rw (eq-false_of_ne raw "" present, listed)
        (omega (
          arith,
          top_weight-append (scan_field py field_name (py.normalize raw) (before ++ (rule ∷ after)))
              (scan_fields py tail),
          field_weight field_name before,
        ))
  fields_weight field_name ((other, text) ∷ head) tail present = omega (
    arith,
    top_weight-append _ (scan_fields py (head ++ ((field_name, raw) ∷ tail))),
    fields_weight field_name head tail present,
  )

  -- A rule of the table that matches a field which is not empty puts its weight under the combined
  -- injection confidence, which stays within 1: whatever the classifier and the similarity layer
  -- say, and whatever the source.
  pub match_is_floor :
      (nearest : ℕ → ℕ) (sound : IsNearest nearest) (source : SourceType) (llm similarity : ℕ)
      (field_name : String) (head tail : Dict String)
      → raw ≢ ""
      → rule.weight ≤ 1000
      → llm ≤ 1000
      → similarity ≤ 1000
      → let fields = head ++ ((field_name, raw) ∷ tail) in
        let c = combine nearest (scan py fields).confidence llm source similarity in
        (rule.weight ≤ c) × (c ≤ 1000)
  unfolding scan
  match_is_floor nearest sound source llm similarity field_name head tail present w hl hs =
      let fields = head ++ ((field_name, raw) ∷ tail) in
      let (floor, top) = rule_confidence_bounds (saw_invisible py fields) (scan_fields py fields) in
      let (kept, bounded) =
        layers_floor nearest sound source
          (rule_confidence (saw_invisible py fields) (scan_fields py fields)) llm similarity top hl
          hs in
      (omega (arith, kept, floor, fields_weight field_name head tail present), bounded)
