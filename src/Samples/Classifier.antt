-- ===== src/Samples/Classifier.antt =====
-- The theorems about the classifier, its breaker and the analyzer's layers at sample texts.
use agent_pay_sentinel.Prelude.{
  ℕ, ◌+◌, ◌/◌, ◌≤◌, String, ◌≡◌, refl, ◌⊎◌, true, false, some, [], ◌∷◌, arith,
}
use agent_pay_sentinel.Analyzer.Rules.{Rule, Scanner}
use agent_pay_sentinel.Analyzer.Trust.{IsNearest}
use agent_pay_sentinel.Classifier.{
  Payload, Surroundings, parsed, thousandths, ClassifierSettings, timed_out, reset_circuit,
  classify, circuit_is_open,
}
use agent_pay_sentinel.Classifier.Breaker.{Round, recovers, circuit_after}
use agent_pay_sentinel.Classifier.Outage.{Fails, failed_trial_is_repeated}
use agent_pay_sentinel.Classifier.Verdicts.{verdict_or_block}

abbrev pub same : String → String
same s = s

abbrev pub cfg : ClassifierSettings
cfg = record {
  groq_model = "model";
  offline = false;
  groq_api_key = "key";
  breaker = record { circuit_failures = 2; cooldown = 30 };
}

-- A call at a time, which the API does not answer within one unit.
abbrev pub at : ℕ → Round
at t = record {
  fields = ("purpose", "beans") ∷ [];
  w = record { now = t; nonce = "n"; create = λ prompt. timed_out; later = t + 1; latency_ms = 0 };
}

abbrev answer : Payload
answer = record {
  confidence = thousandths 1200;
  recommended_action = some "BLOCK";
  signals = "override" ∷ [];
  detected = true;
}

abbrev answers : Surroundings
answers = record (at 0).w { create = λ prompt. parsed answer }

verdict_or_block_example :
    let r = (classify same cfg answers same (at 0).fields reset_circuit).0.0 in
    (r.degraded ≡ false)
    × (r.confidence ≡ 1000)
    × (r.confidence ≤ 1000)
    × ((r.degraded ≡ false) ⊎ ((r.confidence ≡ 0) × (r.recommended_action ≡ "BLOCK")))
unfolding circuit_is_open
verdict_or_block_example = verdict_or_block same cfg answers same (at 0).fields reset_circuit

fails : (t : ℕ) → Fails same same cfg (at t)
fails t = record { wanted = refl; failed = refl }

failed_trial_is_repeated_example :
    let c = circuit_after same same cfg (at 0 ∷ at 2 ∷ []) reset_circuit in
    let c' = (classify same cfg (at 40).w same (at 40).fields c).1 in
    (classify same cfg (at 42).w same (at 42).fields c').0.1 ≡ true
failed_trial_is_repeated_example =
    failed_trial_is_repeated same same cfg (at 0 ∷ []) (at 2) (at 40) (at 42) (fails 0, tt)
      (fails 2) refl (omega arith) (omega arith) (fails 40) (omega arith) refl

recovers_example :
    (classify same cfg
      (at 40).w
      same
      (at 40).fields
      (circuit_after same same cfg (at 0 ∷ at 2 ∷ []) reset_circuit)).0.1
    ≡ true
recovers_example =
    recovers same same cfg (at 0 ∷ at 2 ∷ []) 3 (at 40) (omega arith, (omega arith, tt)) refl
      (omega arith)

abbrev pub rule : Rule
rule = record {
  label = "instruction_override_phrase";
  weight = 900;
  description = "classic prompt-override phrasing";
  search = λ text. some (0, 5);
}

abbrev pub scanner : Scanner
scanner = record { rules = rule ∷ []; normalize = same; invisible = λ s. false; strip = same }

abbrev pub nearest : ℕ → ℕ
nearest n = (n + 2000) / 4000

pub nearest-IsNearest : IsNearest nearest
nearest-IsNearest = record { above = λ n. omega arith; below = λ n. omega arith }
