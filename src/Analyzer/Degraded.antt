-- ===== src/Analyzer/Degraded.antt =====
-- gateway/analyzer/__init__.py with its layers, and gateway/risk.py after it: what an outage of the
-- classifier does to the scores.
use mathlib.Core.Path.{subst}
use agent_pay_sentinel.Prelude.{
  ℕ, ◌+◌, ◌*◌, ◌≤◌, String, ◌≡◌, ◌≢◌, false, ◌⊎◌, inl, inr, some, List, ◌∷◌, ◌++◌, Dict, ap, sym,
  arith,
}
use agent_pay_sentinel.Analyzer.Analysis.{Layers, fields, analyze, security_of}
use agent_pay_sentinel.Analyzer.Floor.{deterministic-le-injection, layers_floor}
use agent_pay_sentinel.Analyzer.Matches.{match_is_floor, rule_confidence_bounds}
use agent_pay_sentinel.Analyzer.Range.{KeepsRange, scan-le}
use agent_pay_sentinel.Analyzer.Rules.{Rule, rule_confidence, saw_invisible, scan_fields}
use agent_pay_sentinel.Analyzer.Rules as Rules
use agent_pay_sentinel.Analyzer.Similarity as Similarity
use agent_pay_sentinel.Analyzer.Trust.{IsNearest, combine}
use agent_pay_sentinel.Canonical.{CanonicalTransaction}
use agent_pay_sentinel.Classifier.{Circuit, Surroundings, classify}
use agent_pay_sentinel.Classifier.Verdicts.{verdict_or_block}
use agent_pay_sentinel.Context.{PolicyContext}
use agent_pay_sentinel.Risk.{Rounding, assess, risk_signals, weighted}
use agent_pay_sentinel.Risk.Floors as Floors

rules-le : (py : Rules.Scanner) (texts : Dict String) → (Rules.scan py texts).confidence ≤ 1000
unfolding Rules.scan
rules-le py texts = (rule_confidence_bounds (saw_invisible py texts) (scan_fields py texts)).1

module _ (py : Layers) (sound : IsNearest py.nearest) (ranged : KeepsRange py.detector.round)
    (w : Surroundings) (txn : CanonicalTransaction) (c : Circuit) where
  -- The score without the classifier is never above the score with it, which stays within 1, and
  -- where the classifier is degraded they are the same.
  degraded_scores :
      let r = (analyze py w txn c).0 in
      (r.deterministic_confidence ≤ r.injection_confidence)
      × (r.injection_confidence ≤ 1000)
      × ((r.classifier_degraded ≡ false) ⊎ (r.injection_confidence ≡ r.deterministic_confidence))
  unfolding analyze
  degraded_scores =
      let texts = fields txn.untrusted in
      let source = txn.untrusted.merchant_source_type in
      let rule = (Rules.scan py.scanner texts).confidence in
      let sim = (Similarity.scan py.detector texts).confidence in
      let llm = (classify py.upper py.settings w py.scanner.strip texts c).0.0.confidence in
      let (_, _, llm_le, claims_none) =
        verdict_or_block py.upper py.settings w py.scanner.strip texts c in
      let rule_le = rules-le py.scanner texts in
      let sim_le = scan-le py.detector texts ranged in
      (
        deterministic-le-injection py.nearest sound source rule llm sim rule_le llm_le sim_le,
        (layers_floor py.nearest sound source rule llm sim rule_le llm_le sim_le).1,
        elim claims_none [
          | inl verdict ↦ inl verdict
          | inr (none, _) ↦ inr (ap (λ l. combine py.nearest rule l source sim) none)
        ],
      )

  -- Whatever the classifier does, even when it is degraded: a rule of the table that matches one of the
  -- texts that nobody vouches for, not empty, puts its weight under both confidences; the one without
  -- the classifier is at most the other, which stays within 1, and under an outage the two are equal;
  -- and the risk engine's weighted score has at least 35 parts of a hundred of that weight, less the
  -- half of a hundredth by which it is rounded.
  pub detection_survives_outage :
      (rounding : Rounding) (exact : Floors.IsNearest rounding) (ctx : PolicyContext) (rule : Rule)
      (before after : List Rule) (listed : py.scanner.rules ≡ before ++ (rule ∷ after))
      (raw : String) (start stop : ℕ)
      (matches : rule.search (py.scanner.normalize raw) ≡ some (start, stop)) (field_name : String)
      (head tail : Dict String) (given : fields txn.untrusted ≡ head ++ ((field_name, raw) ∷ tail))
      → raw ≢ ""
      → rule.weight ≤ 1000
      → let r = (analyze py w txn c).0 in
        (rule.weight ≤ r.deterministic_confidence)
        × (r.deterministic_confidence ≤ r.injection_confidence)
        × (r.injection_confidence ≤ 1000)
        × ((r.classifier_degraded ≡ false) ⊎ (r.injection_confidence ≡ r.deterministic_confidence))
        × (35 * rule.weight ≤ 10 * (assess rounding txn ctx (security_of r)).weighted_score + 5)
  unfolding analyze assess weighted risk_signals
  detection_survives_outage rounding exact ctx rule before after listed raw start stop matches
        field_name head tail given present w_le =
      let r = (analyze py w txn c).0 in
      let (less, top, same) = degraded_scores in
      let source = txn.untrusted.merchant_source_type in
      let sim = (Similarity.scan py.detector (fields txn.untrusted)).confidence in
      let floor : rule.weight ≤ r.deterministic_confidence =
        subst
          (λ (texts : Dict String).
            rule.weight ≤ combine py.nearest (Rules.scan py.scanner texts).confidence 0 source sim)
          (sym given)
          (match_is_floor py.scanner rule before after listed raw start stop matches py.nearest
            sound source 0 sim field_name head tail present w_le (omega arith)
            (scan-le py.detector (fields txn.untrusted) ranged)).0 in
      (
        floor,
        less,
        top,
        same,
        omega (
          arith,
          floor,
          less,
          top,
          exact.below (weighted (risk_signals rounding txn ctx (security_of r))),
        ),
      )
