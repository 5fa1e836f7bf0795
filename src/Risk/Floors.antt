-- ===== src/Risk/Floors.antt =====
-- The scores of gateway/risk.py.
use agent_pay_sentinel.Prelude.{
  ℕ, ◌+◌, ◌*◌, ◌≤◌, ◌≡◌, ◌⊎◌, inl, inr, refl, Bool-cases, Bool, true, false, not, ◌&&◌, ◌||◌, elem,
  ltb, arith,
}
use agent_pay_sentinel.Canonical.{CanonicalTransaction}
use agent_pay_sentinel.Context.{PolicyContext}
use agent_pay_sentinel.Identity.{required_scope}
use agent_pay_sentinel.Pdp.{Security}
use agent_pay_sentinel.Risk.{
  Rounding, minor, policy_violation_score, budget_anomaly_score, merchant_risk_score,
  velocity_risk_score, risk_signals, weighted, assess,
}
use agent_pay_sentinel.Schemas.{RiskSignals}

policy_bound :
    (txn : CanonicalTransaction) (ctx : PolicyContext) → policy_violation_score txn ctx ≤ 1000
unfolding policy_violation_score
policy_bound txn ctx = ground arith

merchant_bound : (ctx : PolicyContext) → merchant_risk_score ctx ≤ 1000
unfolding merchant_risk_score
merchant_bound ctx = ground arith

velocity_bound : (py : Rounding) (ctx : PolicyContext) → velocity_risk_score py ctx ≤ 1000
unfolding velocity_risk_score
velocity_bound py ctx = ground arith

budget_bound :
    (py : Rounding) (txn : CanonicalTransaction) (ctx : PolicyContext)
    → budget_anomaly_score py txn ctx ≤ 1000
unfolding budget_anomaly_score
budget_bound py txn ctx = ground arith

-- A request that no bound policy stands for, or that a policy forbids outright: it is revoked, it
-- blocks the merchant, the agent is inactive, or the payment scope is missing.
abbrev pub forbidden : CanonicalTransaction → PolicyContext → Bool
forbidden txn ctx =
    not ctx.policy_found
    || (ctx.policy_revoked
        || (elem txn.merchant_id ctx.blocked_merchants
            || ((ctx.agent_registered && not ctx.agent_active)
                || not (elem required_scope txn.agent_scopes))))

forbidden_score :
    (txn : CanonicalTransaction) (ctx : PolicyContext)
    → forbidden txn ctx ≡ true
    → policy_violation_score txn ctx ≡ 1000
unfolding policy_violation_score
forbidden_score txn ctx h = ground arith

-- An amount above the transaction's limit, or above what is left of the day's.
abbrev pub over_budget : CanonicalTransaction → PolicyContext → Bool
over_budget txn ctx =
    ltb ctx.per_transaction_limit (minor txn.amount)
    || (ltb 0 ctx.daily_limit && ltb ctx.daily_limit (ctx.spent_today + minor txn.amount))

over_budget_score :
    (py : Rounding) (txn : CanonicalTransaction) (ctx : PolicyContext)
    → over_budget txn ctx ≡ true
    → budget_anomaly_score py txn ctx ≡ 1000
unfolding budget_anomaly_score
over_budget_score py txn ctx h = ground arith

-- What `round(x, 2)` documents: a whole number of hundredths at most one half away.
pub record IsNearest (py : Rounding) : Type 0 where
  pub above : (n : ℕ) → 10 * py.hundredths n ≤ n + 5
  pub below : (n : ℕ) → n ≤ 10 * py.hundredths n + 5

-- Every score of the signals, the trust in the source included.
pub record InRange (s : RiskSignals) : Type 0 where
  pub injection : s.injection_confidence ≤ 1000
  pub policy : s.policy_violation_score ≤ 1000
  pub budget : s.budget_anomaly_score ≤ 1000
  pub merchant : s.merchant_risk_score ≤ 1000
  pub velocity : s.velocity_risk_score ≤ 1000
  pub source : s.source_trust_score ≤ 1000

module _ (py : Rounding) (sound : IsNearest py) (txn : CanonicalTransaction) (ctx : PolicyContext)
    (analysis : Security) where
  signals-InRange : InRange (risk_signals py txn ctx analysis)
  unfolding risk_signals
  signals-InRange = record {
    injection = omega arith;
    policy = policy_bound txn ctx;
    budget = budget_bound py txn ctx;
    merchant = merchant_bound ctx;
    velocity = velocity_bound py ctx;
    source = omega arith;
  }

  -- Every score of an assessment lies within 0 and 1 and the weighted score within 0 and 100; and no
  -- violation is averaged away: what the policy forbids outright adds its whole 25 and an amount
  -- over the budget its whole 20, whatever the other scores.
  pub assess_bounds :
      let r = assess py txn ctx analysis in
      InRange r.signals
      × (r.weighted_score ≤ 10000)
      × ((forbidden txn ctx ≡ false) ⊎ (2500 ≤ r.weighted_score))
      × ((over_budget txn ctx ≡ false) ⊎ (2000 ≤ r.weighted_score))
      × (((forbidden txn ctx && over_budget txn ctx) ≡ false) ⊎ (4500 ≤ r.weighted_score))
  unfolding assess weighted
  assess_bounds =
      let s = risk_signals py txn ctx analysis in
      let n = weighted s in
      let up = sound.above n in
      let down = sound.below n in
      (
        signals-InRange,
        omega (
          arith, signals-InRange.injection, signals-InRange.policy, signals-InRange.budget,
          signals-InRange.merchant, signals-InRange.velocity, up,
        ),
        elim (Bool-cases (forbidden txn ctx)) [
          | inl e ↦ inr (omega (arith, down, forbidden_score txn ctx e))
          | inr e ↦ inl e
        ],
        elim (Bool-cases (over_budget txn ctx)) [
          | inl e ↦ inr (omega (arith, down, over_budget_score py txn ctx e))
          | inr e ↦ inl e
        ],
        elim (Bool-cases (forbidden txn ctx)) [
          | inr e ↦ inl (rw e refl)
          | inl e ↦ elim (Bool-cases (over_budget txn ctx)) [
            | inr e' ↦ inl (rw (e, e') refl)
            | inl e' ↦
                inr
                  (omega (arith, down, forbidden_score txn ctx e, over_budget_score py txn ctx e'))
          ]
        ],
      )
