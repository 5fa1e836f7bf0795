-- ===== src/Classifier/Verdicts.antt =====
-- gateway/analyzer/llm.py: when `classify` has a verdict, and what it says without one.
use agent_pay_sentinel.Prelude.{
  ℕ, ◌≤◌, String, ◌≡◌, refl, Bool, true, false, not, ◌&&◌, ◌||◌, Option, none, some, Dict, leb,
  if◌then◌else◌, arith, ◌==◌, ◌⊎◌, inr,
}
use agent_pay_sentinel.Classifier.{
  Circuit, ClassifierSettings, Surroundings, Reply, timed_out, api_error, truncated, unparseable,
  parsed, Number, malformed, nan, below_zero, thousandths, coerce, degraded_result, no_content,
  circuit_is_open, answered, classify, build_data_block,
}

-- What the model's number stands for, in thousandths: nothing where it is malformed, and 0 where it is
-- not a number or below zero.
abbrev pub stated : Number → Option ℕ
stated malformed = none
stated nan = some 0
stated below_zero = some 0
stated (thousandths n) = some (if leb n 1000 then n else 1000)

abbrev pub is_number : Number → Bool
is_number malformed = false
is_number _ = true

-- An answer with a confidence that `float` takes.
abbrev pub has_verdict : Reply → Bool
has_verdict (parsed payload) = is_number payload.confidence
has_verdict _ = false

-- the confidence that an answer gives
abbrev pub verdict_of : Reply → ℕ
verdict_of (parsed payload) = elim (stated payload.confidence) [ none ↦ 0 | some n ↦ n ]
verdict_of _ = 0

-- The call can be made: the classifier is on, there is a key, and the breaker is closed.
abbrev pub reachable : ClassifierSettings → ℕ → Circuit → Bool
reachable cfg now c =
    not cfg.offline && (not (cfg.groq_api_key == "") && not (circuit_is_open now c))

module _ (upper : String → String) (cfg : ClassifierSettings) (w : Surroundings) where
  answered_degraded :
      (reply : Reply) (c : Circuit)
      → (answered upper cfg w reply c).0.degraded ≡ not (has_verdict reply)
  unfolding answered degraded_result coerce
  answered_degraded timed_out c = refl
  answered_degraded (api_error name) c = refl
  answered_degraded truncated c = refl
  answered_degraded unparseable c = refl
  answered_degraded (parsed payload) c = ground arith

  answered_bounds :
      (reply : Reply) (c : Circuit)
      → let r = (answered upper cfg w reply c).0 in
        (r.confidence ≡ verdict_of reply)
        × (r.confidence ≤ 1000)
        × ((r.degraded ≡ false) ⊎ ((r.confidence ≡ 0) × (r.recommended_action ≡ "BLOCK")))
  unfolding answered degraded_result coerce
  answered_bounds timed_out c = (refl, omega arith, inr (refl, refl))
  answered_bounds (api_error name) c = (refl, omega arith, inr (refl, refl))
  answered_bounds truncated c = (refl, omega arith, inr (refl, refl))
  answered_bounds unparseable c = (refl, omega arith, inr (refl, refl))
  answered_bounds (parsed payload) c = (ground arith, ground arith, ground arith)

  -- `classify` has a verdict in exactly two cases: no field has any content, or the classifier could
  -- be reached and the model answered with a confidence that is not malformed. Its confidence is the
  -- answer's, cut to the range from 0 to 1 (a NaN and a number below zero give 0), and 0 where there
  -- is no answer; and a result without a verdict claims none: its confidence is 0 and it recommends
  -- BLOCK.
  pub verdict_or_block :
      (strip : String → String) (fields : Dict String) (c : Circuit)
      → let r = (classify upper cfg w strip fields c).0.0 in
        let reply = w.create (build_data_block fields w.nonce) in
        let asked = not (no_content strip fields) && reachable cfg w.now c in
        (r.degraded ≡ not (no_content strip fields || (reachable cfg w.now c && has_verdict reply)))
        × (r.confidence ≡ (if asked then verdict_of reply else 0))
        × (r.confidence ≤ 1000)
        × ((r.degraded ≡ false) ⊎ ((r.confidence ≡ 0) × (r.recommended_action ≡ "BLOCK")))
  unfolding classify degraded_result
  verdict_or_block strip fields c =
      let reply = w.create (build_data_block fields w.nonce) in
      let (exact, bounded, claims_none) = answered_bounds reply c in
      (
        ground (arith, answered_degraded reply c),
        ground (arith, exact),
        ground (arith, bounded),
        ground (arith, claims_none),
      )
