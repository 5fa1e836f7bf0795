-- ===== src/Risk.antt =====
-- The risk engine, gateway/risk.py. Scores are whole thousandths and the weighted score whole
-- hundredths. Amounts have two decimals at most, as `Money` has them, and are compared in minor units;
-- the rounding of a fraction, of its power 1.5 and of the weighted sum are arguments.
pub mod Floors
use agent_pay_sentinel.Prelude.{
  ℕ, ◌+◌, ◌*◌, min, max, String, Bool, true, false, not, ◌&&◌, ◌||◌, List, [], ◌∷◌, elem, ltb, leb,
  ◌==◌, if◌then◌else◌,
}
use agent_pay_sentinel.Canonical.{CanonicalTransaction}
use agent_pay_sentinel.Context.{PolicyContext}
use agent_pay_sentinel.Identity.{required_scope}
use agent_pay_sentinel.Money.{Decimal, round_half_up, times_100}
use agent_pay_sentinel.Pdp.{Security}
use agent_pay_sentinel.Schemas.{RiskSignals, RiskAssessment}

-- `ratio n d` is `round(n / d, 3)`, `power n d` is `round((n / d) ** 1.5, 3)`, and `hundredths n` is
-- `round(n / 1000, 2)`.
pub record Rounding : Type 0 where
  pub ratio : ℕ → ℕ → ℕ
  pub power : ℕ → ℕ → ℕ
  pub hundredths : ℕ → ℕ

-- `_clamp` of a number that is not negative
abbrev pub clamp : ℕ → ℕ
clamp n = min 1000 n

abbrev pub minor : Decimal → ℕ
minor d = round_half_up d.digits (times_100 d.exponent)

abbrev pub is_empty : List String → Bool
is_empty [] = true
is_empty (x ∷ xs) = false

-- `max(score, s)` where the test holds
abbrev at_least : Bool → ℕ → ℕ → ℕ
at_least test s score = if test then max score s else score

unfoldable pub policy_violation_score : CanonicalTransaction → PolicyContext → ℕ
policy_violation_score txn ctx =
    if not ctx.policy_found
    then 1000
    else clamp (
        at_least (not (elem required_scope txn.agent_scopes)) 1000 (
          at_least
            (not (is_empty ctx.agent_allowed_categories)
              && not (elem ctx.merchant_category ctx.agent_allowed_categories))
            550
            (at_least (ctx.agent_registered && not ctx.agent_active) 1000 (
              at_least (not (txn.currency == ctx.policy_currency)) 600 (
                at_least (ctx.require_verified_merchant && not ctx.merchant_verified) 750 (
                  at_least
                    (not (is_empty ctx.allowed_merchants)
                      && not (elem txn.merchant_id ctx.allowed_merchants))
                    800
                    (at_least (elem txn.merchant_id ctx.blocked_merchants) 1000
                      (at_least ctx.policy_revoked 1000 0))))))))

-- The larger of two fractions `n / d` with positive denominators, given to the power.
larger : Rounding → ℕ → ℕ → ℕ → ℕ → ℕ
larger py n d n' d' = if leb (n * d') (n' * d) then py.power n' d' else py.power n d

-- The daily fraction is 1.0 where there is no daily limit, which is above no limit.
unfoldable pub budget_anomaly_score : Rounding → CanonicalTransaction → PolicyContext → ℕ
unfolding larger
budget_anomaly_score py txn ctx =
    if not ctx.policy_found || not (ltb 0 ctx.per_transaction_limit)
    then 1000
    else (let amount = minor txn.amount in
        let projected = if ltb 0 ctx.daily_limit then ctx.spent_today + amount else 1 in
        let daily = if ltb 0 ctx.daily_limit then ctx.daily_limit else 1 in
        if ltb ctx.per_transaction_limit amount || ltb daily projected
        then 1000
        else clamp (larger py amount ctx.per_transaction_limit projected daily))

unfoldable pub merchant_risk_score : PolicyContext → ℕ
merchant_risk_score ctx =
    if ctx.merchant_known
    then clamp (at_least (not ctx.merchant_verified) 600 ctx.merchant_registry_risk)
    else 900

unfoldable pub velocity_risk_score : Rounding → PolicyContext → ℕ
velocity_risk_score py ctx =
    if ltb 0 ctx.max_transactions_per_hour
    then clamp (py.ratio ctx.transactions_last_hour ctx.max_transactions_per_hour)
    else 1000

unfoldable pub risk_signals :
    Rounding → CanonicalTransaction → PolicyContext → Security → RiskSignals
risk_signals py txn ctx analysis = record {
  injection_confidence = clamp analysis.injection_confidence;
  injection_labels = analysis.injection_labels;
  policy_violation_score = policy_violation_score txn ctx;
  budget_anomaly_score = budget_anomaly_score py txn ctx;
  merchant_risk_score = merchant_risk_score ctx;
  velocity_risk_score = velocity_risk_score py ctx;
  source_trust_score = clamp analysis.source_trust_score;
  classifier_degraded = analysis.classifier_degraded;
}

-- the sum by `WEIGHTS`
unfoldable pub weighted : RiskSignals → ℕ
weighted s =
    35 * s.injection_confidence
    + 25 * s.policy_violation_score
    + 20 * s.budget_anomaly_score
    + 10 * s.merchant_risk_score
    + 10 * s.velocity_risk_score

unfoldable pub assess : Rounding → CanonicalTransaction → PolicyContext → Security → RiskAssessment
unfolding risk_signals weighted
assess py txn ctx analysis =
    let signals = risk_signals py txn ctx analysis in
    record {
      signals = signals;
      weighted_score = py.hundredths (weighted signals);
      policy_version_context = ctx.policy_version;
    }
