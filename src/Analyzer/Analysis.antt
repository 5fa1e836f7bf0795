-- ===== src/Analyzer/Analysis.antt =====
-- Stage 3 as a whole: `analyze` of gateway/analyzer/__init__.py over its three layers, with the breaker
-- of the classifier passed through. `sorted` and the text of a score are arguments.
use package.text.Mathlib.Text.{starts_with}
use agent_pay_sentinel.Prelude.{
  ℕ, zero, suc, String, ◌<>◌, Bool, List, [], ◌∷◌, ◌++◌, Dict, take, ltb, ◌==◌, if◌then◌else◌,
}
use agent_pay_sentinel.Analyzer.Rules.{Scanner, RuleFinding, labels_of}
use agent_pay_sentinel.Analyzer.Rules as Rules
use agent_pay_sentinel.Analyzer.Similarity.{Detector, SimilarityResult, to_set}
use agent_pay_sentinel.Analyzer.Similarity as Similarity
use agent_pay_sentinel.Analyzer.Trust.{combine, trust_score}
use agent_pay_sentinel.Canonical.{CanonicalTransaction, UntrustedContent}
use agent_pay_sentinel.Classifier.{
  Circuit, ClassifierSettings, ClassifierResult, Surroundings, classify,
}
use agent_pay_sentinel.Json.{Items, nil, cons, Fields, end, field, num, text, texts, flag, arr, obj}
use agent_pay_sentinel.Pdp.{Security}

-- The three layers and the rounding of `combine`.
pub record Layers : Type 0 where
  pub scanner : Scanner
  pub detector : Detector
  pub settings : ClassifierSettings
  pub upper : String → String
  pub nearest : ℕ → ℕ
  pub sorted : List String → List String
  pub show : ℕ → String

pub record AnalysisResult : Type 0 where
  pub injection_confidence : ℕ
  pub injection_labels : List String
  pub rule_confidence : ℕ
  pub llm_confidence : ℕ
  pub similarity_confidence : ℕ
  pub similarity_label : String
  pub deterministic_confidence : ℕ
  pub classifier_degraded : Bool
  pub classifier_degraded_reason : String
  pub source_trust_score : ℕ
  pub evidence : List (Dict String)
  pub classifier_model : String
  pub classifier_latency_ms : ℕ

-- `UntrustedContent.fields`
abbrev pub fields : UntrustedContent → Dict String
fields u =
    ("merchant_content", u.merchant_text)
    ∷ ("purpose", u.purpose)
    ∷ ("tool_arguments", u.tool_arguments_text)
    ∷ []

-- the classifier's signals that are not about itself
content_signals : List String → List String
content_signals [] = []
content_signals (s ∷ ss) =
    let rest = content_signals ss in
    if starts_with s "classifier_unavailable" then rest else s ∷ rest

labels : Layers → List RuleFinding → ClassifierResult → SimilarityResult → List String
unfolding content_signals
labels py findings llm sim = py.sorted (
    to_set (
      labels_of findings
      ++ content_signals llm.signals
      ++ (if sim.label == "" then [] else ("similar:" <> sim.label) ∷ [])))

item : String → String → String → String → String → Dict String
item layer label field_name excerpt why =
    ("layer", layer)
    ∷ ("label", label)
    ∷ ("field", field_name)
    ∷ ("excerpt", excerpt)
    ∷ ("why", why)
    ∷ []

rules_evidence : List RuleFinding → List (Dict String)
unfolding item
rules_evidence [] = []
rules_evidence (f ∷ fs) = item "rules" f.label f.field f.excerpt f.description ∷ rules_evidence fs

-- `",".join(...)`
joined : List String → String
joined [] = ""
joined (s ∷ []) = s
joined (s ∷ t ∷ ss) = s <> "," <> joined (t ∷ ss)

llm_evidence : Layers → ClassifierResult → List String → List (Dict String)
unfolding item joined
llm_evidence py llm [] = []
llm_evidence py llm (s ∷ ss) =
    if llm.degraded
    then []
    else (item "llm" (joined (take 5 (s ∷ ss))) "data_block" ""
          (llm.model <> " confidence " <> py.show llm.confidence)
        ∷ [])

similarity_evidence : Layers → SimilarityResult → List (Dict String)
unfolding item
similarity_evidence py sim =
    if ltb 0 sim.confidence
    then (item "similarity" (if sim.label == "" then "sub-threshold" else sim.label)
          "untrusted_fields" ""
          ("resemblance to known injection patterns (" <> py.show sim.confidence <> ")")
        ∷ [])
    else []

-- The result and the classifier's breaker after it.
unfoldable pub analyze :
    Layers → Surroundings → CanonicalTransaction → Circuit → AnalysisResult × Circuit
unfolding labels rules_evidence llm_evidence similarity_evidence
analyze py w txn c =
    let given = fields txn.untrusted in
    let source = txn.untrusted.merchant_source_type in
    let rule_result = Rules.scan py.scanner given in
    let ((llm_result, called), c') = classify py.upper py.settings w py.scanner.strip given c in
    let sim_result = Similarity.scan py.detector given in
    (
      record {
        injection_confidence =
            combine py.nearest rule_result.confidence llm_result.confidence source
              sim_result.confidence;
        injection_labels = labels py rule_result.findings llm_result sim_result;
        rule_confidence = rule_result.confidence;
        llm_confidence = llm_result.confidence;
        similarity_confidence = sim_result.confidence;
        similarity_label = sim_result.label;
        deterministic_confidence =
            combine py.nearest rule_result.confidence 0 source sim_result.confidence;
        classifier_degraded = llm_result.degraded;
        classifier_degraded_reason = llm_result.degraded_reason;
        source_trust_score = trust_score source;
        evidence =
            rules_evidence rule_result.findings
            ++ llm_evidence py llm_result llm_result.signals
            ++ similarity_evidence py sim_result;
        classifier_model = llm_result.model;
        classifier_latency_ms = llm_result.latency_ms;
      },
      c',
    )

entry : Dict String → Fields
entry [] = end
entry ((key, value) ∷ rest) = field key (text value) (entry rest)

-- so many of them
entries : ℕ → List (Dict String) → Items
unfolding entry
entries zero ds = nil
entries (suc n) [] = nil
entries (suc n) (d ∷ ds) = cons (obj (entry d)) (entries n ds)

-- Scores are numbers of thousandths here too.
unfoldable pub to_dict : AnalysisResult → Fields
unfolding entries
to_dict r = field "injection_confidence" (num r.injection_confidence) (
    field "injection_labels" (texts r.injection_labels) (
      field "rule_confidence" (num r.rule_confidence) (
        field "llm_confidence" (num r.llm_confidence) (
          field "similarity_confidence" (num r.similarity_confidence) (
            field "similarity_label" (text r.similarity_label) (
              field "deterministic_confidence" (num r.deterministic_confidence) (
                field "classifier_degraded" (flag r.classifier_degraded) (
                  field "classifier_degraded_reason" (text r.classifier_degraded_reason) (
                    field "source_trust_score" (num r.source_trust_score) (
                      field "classifier_model" (text r.classifier_model) (
                        field "classifier_latency_ms" (num r.classifier_latency_ms)
                          (field "evidence" (arr (entries 12 r.evidence)) end))))))))))))

-- What the risk engine and the input of the policy read of the result.
abbrev pub security_of : AnalysisResult → Security
security_of r = record {
  injection_confidence = r.injection_confidence;
  injection_labels = r.injection_labels;
  classifier_degraded = r.classifier_degraded;
  deterministic_confidence = r.deterministic_confidence;
  source_trust_score = r.source_trust_score;
}
