-- ===== src/Context/Spend.antt =====
-- gateway/context.py: the bound policy, and the states that count as spent.
use agent_pay_sentinel.Prelude.{
  ℕ, ◌+◌, String, ◌≡◌, refl, ◌≢◌, Bool, true, false, none, some, List, [], ◌∷◌, ◌++◌, arith, lookup,
  ◌==◌, eq_iff, elem, ◌⊎◌, inl, inr, Option-cases, Bool-cases,
}
use agent_pay_sentinel.Lifecycle.{
  PaymentState, created, authorized, failed, expired, assert_transition,
}
use agent_pay_sentinel.Lifecycle.Edges.{
  ◌⟶◌, authorize, expire, decline, void, cancel, block, assert_transition_iff,
}
use agent_pay_sentinel.Result.{ok}
use agent_pay_sentinel.Risk.{Rounding, policy_violation_score, budget_anomaly_score}
use agent_pay_sentinel.Schemas.{state_value}
use agent_pay_sentinel.Canonical.{CanonicalTransaction}
use agent_pay_sentinel.Store.{Store}
use agent_pay_sentinel.Context.{
  SpendingPolicy, PolicyContext, Spending, Tables, settled_states, spent, load_context,
}

-- Every term of the policy that a decision reads, in the context.
pub record Bound (ctx : PolicyContext) (p : SpendingPolicy) : Type 0 where
  pub policy_version : ctx.policy_version ≡ p.policy_version
  pub per_transaction_limit : ctx.per_transaction_limit ≡ p.per_transaction_limit
  pub daily_limit : ctx.daily_limit ≡ p.daily_limit
  pub policy_currency : ctx.policy_currency ≡ p.currency
  pub allowed_merchants : ctx.allowed_merchants ≡ p.allowed_merchants
  pub blocked_merchants : ctx.blocked_merchants ≡ p.blocked_merchants
  pub require_verified_merchant : ctx.require_verified_merchant ≡ p.require_verified_merchant
  pub approval_threshold : ctx.approval_threshold ≡ p.approval_threshold
  pub max_transactions_per_hour : ctx.max_transactions_per_hour ≡ p.max_transactions_per_hour
  pub policy_revoked : ctx.policy_revoked ≡ p.revoked

-- No policy: no money may go, ten transactions an hour, and the two scores of the risk engine that
-- read the policy are at their highest.
pub record Unbound (py : Rounding) (txn : CanonicalTransaction) (ctx : PolicyContext) : Type 0 where
  pub per_transaction_limit : ctx.per_transaction_limit ≡ 0
  pub daily_limit : ctx.daily_limit ≡ 0
  pub approval_threshold : ctx.approval_threshold ≡ 0
  pub max_transactions_per_hour : ctx.max_transactions_per_hour ≡ 10
  pub require_verified_merchant : ctx.require_verified_merchant ≡ true
  pub violation : policy_violation_score txn ctx ≡ 1000
  pub anomaly : budget_anomaly_score py txn ctx ≡ 1000

unfound-scores :
    (py : Rounding) (txn : CanonicalTransaction) (ctx : PolicyContext)
    → ctx.policy_found ≡ false
    → (policy_violation_score txn ctx ≡ 1000) × (budget_anomaly_score py txn ctx ≡ 1000)
unfolding policy_violation_score budget_anomaly_score
unfound-scores py txn ctx e = (ground (arith, e), ground (arith, e))

module _ {V : Type 0} (py : Rounding) (txn : CanonicalTransaction) (db : Tables) (s : Store V)
    (now : ℕ) where
  own_policy :
      (p : SpendingPolicy)
      → lookup txn.delegation_id db.policies ≡ some p
      → (p.user_id == txn.user_id) ≡ true
      → let ctx = load_context txn db s now in (ctx.policy_found ≡ true) × Bound ctx p
  unfolding load_context
  own_policy p e own = (
    ground (arith, e),
    record {
      policy_version = ground (arith, e);
      per_transaction_limit = ground (arith, e);
      daily_limit = ground (arith, e);
      policy_currency = ground (arith, e);
      allowed_merchants = ground (arith, e);
      blocked_merchants = ground (arith, e);
      require_verified_merchant = ground (arith, e);
      approval_threshold = ground (arith, e);
      max_transactions_per_hour = ground (arith, e);
      policy_revoked = ground (arith, e);
    },
  )

  unbound_limits :
      let ctx = load_context txn db s now in
      (ctx.policy_found ≡ false)
      → (ctx.per_transaction_limit ≡ 0)
        × (ctx.daily_limit ≡ 0)
        × (ctx.approval_threshold ≡ 0)
        × (ctx.max_transactions_per_hour ≡ 10)
        × (ctx.require_verified_merchant ≡ true)
  unfolding load_context
  unbound_limits none_found = (ground arith, ground arith, ground arith, ground arith, ground arith)

  unbound :
      (load_context txn db s now).policy_found ≡ false → Unbound py txn (load_context txn db s now)
  unbound none_found =
      let (per, daily, threshold, hourly, verified) = unbound_limits none_found in
      let (violation, anomaly) = unfound-scores py txn (load_context txn db s now) none_found in
      record {
        per_transaction_limit = per;
        daily_limit = daily;
        approval_threshold = threshold;
        max_transactions_per_hour = hourly;
        require_verified_merchant = verified;
        violation = violation;
        anomaly = anomaly;
      }

  missing :
      lookup txn.delegation_id db.policies ≡ none → (load_context txn db s now).policy_found ≡ false
  unfolding load_context
  missing e = ground (arith, e)

  foreign :
      (p : SpendingPolicy)
      → lookup txn.delegation_id db.policies ≡ some p
      → (p.user_id == txn.user_id) ≡ false
      → (load_context txn db s now).policy_found ≡ false
  unfolding load_context
  foreign p e other = ground (arith, e)

  -- A policy is found exactly when the delegation has one and it is the user's own. Then every term
  -- of the context is the policy's: the version, the four limits, the currency, both lists of
  -- merchants, and whether it wants a verified merchant and is revoked. Otherwise the three amounts
  -- are zero, the hourly limit is ten and a verified merchant is required, and the risk engine puts
  -- both the violation of the policy and the anomaly of the budget at 1.
  pub policy_found_iff :
      let ctx = load_context txn db s now in
      ((ctx.policy_found ≡ true)
        × (p : SpendingPolicy) × (lookup txn.delegation_id db.policies ≡ some p)
        × (p.user_id ≡ txn.user_id)
        × Bound ctx p)
      ⊎ ((ctx.policy_found ≡ false)
          × Unbound py txn ctx
          × ((p : SpendingPolicy)
              → lookup txn.delegation_id db.policies ≡ some p
              → p.user_id ≢ txn.user_id))
  policy_found_iff = elim (Option-cases (lookup txn.delegation_id db.policies)) [
    | inl e ↦ let none_found = missing e in inr (none_found, unbound none_found, λ p q. cc)
    | inr (p, e) ↦ elim (Bool-cases (p.user_id == txn.user_id)) [
      | inl own ↦
          let (found, bound) = own_policy p e own in
          inl (found, p, e, (eq_iff p.user_id txn.user_id).0 own, bound)
      | inr other ↦
          let none_found = foreign p e other in
          inr (
            none_found,
            unbound none_found,
            λ q f same. ground (arith, e, eq_iff p.user_id txn.user_id),
          )
    ]
  ]

abbrev pub is_settled : PaymentState → Bool
is_settled s = elem (state_value s) settled_states

settled_edge :
    {s t : PaymentState}
    → s ⟶ t
    → ((is_settled s ≡ true) → (is_settled t ≡ true) ⊎ ((t ≡ failed) ⊎ (t ≡ expired)))
      × ((is_settled s ≡ false) → is_settled t ≡ true → (s ≡ created) × (t ≡ authorized))
settled_edge authorize = (λ e. inl refl, λ e f. (refl, refl))
settled_edge expire = (λ e. inr (inr refl), λ e f. cc)
settled_edge decline = (λ e. inr (inl refl), λ e f. cc)
settled_edge void = (λ e. inr (inl refl), λ e f. cc)
settled_edge cancel = (λ e. inr (inl refl), λ e f. cc)
settled_edge block = (λ e. inr (inl refl), λ e f. cc)
settled_edge _ = (λ e. inl refl, λ e f. cc)

-- A payment counts against the daily budget from its authorization until it has failed or expired:
-- no accepted transition out of a settled state leaves the settled states in any other way, and
-- from `CREATED` only the authorization enters them.
pub settled_until_released :
    (s t : PaymentState)
    → assert_transition s t ≡ ok tt
    → ((is_settled s ≡ true) → (is_settled t ≡ true) ⊎ ((t ≡ failed) ⊎ (t ≡ expired)))
      × ((is_settled s ≡ false) → is_settled t ≡ true → (s ≡ created) × (t ≡ authorized))
settled_until_released s t h = settled_edge ((assert_transition_iff s t).0 h)

spent-append :
    (user_id : String) (since : ℕ) (ts us : List Spending)
    → spent user_id since (ts ++ us) ≡ spent user_id since ts + spent user_id since us
unfolding spent
spent-append user_id since [] us = omega arith
spent-append user_id since (t ∷ ts) us = omega (arith, spent-append user_id since ts us)
