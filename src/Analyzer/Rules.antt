-- ===== src/Analyzer/Rules.antt =====
-- The deterministic rules, gateway/analyzer/rules.py. Matching a pattern, `normalize` (Unicode and
-- regular expressions) and the search for invisible characters are arguments; the table of rules is a
-- list. Weights and confidences are whole thousandths.
use agent_pay_sentinel.Prelude.{
  ℕ, ◌+◌, ◌-◌, ◌*◌, min, max, String, Bool, false, ◌||◌, Option, none, some, List, [], ◌∷◌, ◌++◌,
  Dict, elem, ◌==◌, if◌then◌else◌,
}
use agent_pay_sentinel.Slices.{prefix, slice}

-- A rule; `search` is `pattern.search`, with the start and the end of the match.
pub record Rule : Type 0 where
  pub label : String
  pub weight : ℕ
  pub description : String
  pub search : String → Option (ℕ × ℕ)

pub record Scanner : Type 0 where
  pub rules : List Rule
  pub normalize : String → String
  pub invisible : String → Bool
  pub strip : String → String

pub record RuleFinding : Type 0 where
  pub label : String
  pub field : String
  pub weight : ℕ
  pub excerpt : String
  pub description : String

pub record RuleScanResult : Type 0 where
  pub findings : List RuleFinding
  pub confidence : ℕ
  pub had_invisible_characters : Bool

-- what one rule finds in a field
found : (String → String) → String → String → Rule → Option (ℕ × ℕ) → List RuleFinding
found strip field_name text rule none = []
found strip field_name text rule (some (start, stop)) =
    record {
      label = rule.label;
      field = field_name;
      weight = rule.weight;
      excerpt = prefix 160 (strip (slice (start - 30) (stop + 30) text));
      description = rule.description;
    }
    ∷ []

unfoldable pub scan_field : Scanner → String → String → List Rule → List RuleFinding
unfolding found
scan_field py field_name text [] = []
scan_field py field_name text (rule ∷ rules) =
    found py.strip field_name text rule (rule.search text) ++ scan_field py field_name text rules

unfoldable pub scan_fields : Scanner → Dict String → List RuleFinding
scan_fields py [] = []
scan_fields py ((field_name, raw) ∷ fields) =
    (if raw == "" then [] else scan_field py field_name (py.normalize raw) py.rules)
    ++ scan_fields py fields

abbrev pub saw_invisible : Scanner → Dict String → Bool
saw_invisible py [] = false
saw_invisible py ((field_name, raw) ∷ fields) =
    (if raw == "" then false else py.invisible raw) || saw_invisible py fields

abbrev pub labels_of : List RuleFinding → List String
labels_of [] = []
labels_of (f ∷ fs) = f.label ∷ labels_of fs

abbrev pub top_weight : List RuleFinding → ℕ
top_weight [] = 0
top_weight (f ∷ fs) = max f.weight (top_weight fs)

-- `len({...})`
abbrev pub distinct : List String → ℕ
distinct [] = 0
distinct (x ∷ xs) = (if elem x xs then 0 else 1) + distinct xs

unfoldable pub rule_confidence : Bool → List RuleFinding → ℕ
rule_confidence invisible [] = if invisible then 80 else 0
rule_confidence invisible (f ∷ fs) =
    min 1000 (
      top_weight (f ∷ fs)
      + 50 * (distinct (labels_of (f ∷ fs)) - 1)
      + (if invisible then 50 else 0))

unfoldable pub scan : Scanner → Dict String → RuleScanResult
unfolding scan_fields rule_confidence
scan py fields =
    let findings = scan_fields py fields in
    let invisible = saw_invisible py fields in
    record {
      findings = findings;
      confidence = rule_confidence invisible findings;
      had_invisible_characters = invisible;
    }
