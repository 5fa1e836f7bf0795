-- ===== src/Approvals/Bound.antt =====
-- gateway/approvals.py: parking, granting and reading an approval, one after the other.
use agent_pay_sentinel.Prelude.{
  ℕ, ◌+◌, ◌/◌, ◌≤◌, ◌<◌, String, ◌≡◌, refl, true, false, some, List, arith, ap, eq_refl,
  eq-false_of_ne,
}
use agent_pay_sentinel.Canonical.{CanonicalTransaction}
use agent_pay_sentinel.Clock.{second, seconds}
use agent_pay_sentinel.Money.{to_minor_units}
use agent_pay_sentinel.Pdp.{ApprovalFinding}
use agent_pay_sentinel.Store.{Store}
use agent_pay_sentinel.Store.Laws.{view, get-eq-view, view-set}
use agent_pay_sentinel.Tokens.{
  Jwt, IsSound, ApprovalClaims, approval_claims, issue_approval_token, verify_approval_token,
}
use agent_pay_sentinel.Values.{Value}
use agent_pay_sentinel.Approvals.{
  approval_ttl_seconds, approval_key, as_request, load_request, new_request, create_request,
  granted_token, grant, finding_of, text_of, evaluate_token,
}

-- The finding of an approval for exactly the money fields of a transaction.
abbrev pub bound_to : CanonicalTransaction → ApprovalFinding
bound_to txn = record {
  present = true;
  valid = true;
  expired = false;
  bound_amount = some (to_minor_units txn.amount);
  bound_merchant_id = some txn.merchant_id;
  bound_currency = some txn.currency;
  bound_cart_hash = some txn.cart_hash;
}

load_request-view :
    (id : String) (now : ℕ) (s : Store Value)
    → (load_request id now s).0 ≡ as_request (view s now (approval_key id))
unfolding load_request
load_request-view id now s = ap as_request (get-eq-view (approval_key id) now s)

module _ (j : Jwt) where
  request_id : CanonicalTransaction → List String → String
  request_id txn reasons = (new_request j txn reasons).approval_request_id

  load-create :
      (txn : CanonicalTransaction) (reasons : List String) (t now : ℕ) (s : Store Value)
      → now ≤ t + seconds approval_ttl_seconds
      → (load_request
          (new_request j txn reasons).approval_request_id
          now
          (create_request j txn reasons t s).1).0
        ≡ some (new_request j txn reasons)
  unfolding create_request as_request
  load-create txn reasons t now s h =
      rw
        (
          load_request-view,
          view-set,
          eq_refl (approval_key (new_request j txn reasons).approval_request_id),
        )
        (ground arith)

  unfoldable pub bound_claims : CanonicalTransaction → List String → String → ℕ → ApprovalClaims
  bound_claims txn reasons fresh u =
      let r = new_request j txn reasons in
      approval_claims j r.approval_request_id r.user_id r.merchant_id (j.decimal r.amount)
        r.currency r.cart_hash approval_ttl_seconds u fresh

  bound_token : CanonicalTransaction → List String → String → ℕ → String
  bound_token txn reasons fresh u = j.encode_approval (bound_claims txn reasons fresh u)

  granted_by :
      (id : String) (u : ℕ) (fresh : String) (s : Store Value)
      → (grant j id u fresh s).0
        ≡ (granted_token j id u fresh (load_request id u s).0 (load_request id u s).1).0
  unfolding grant
  granted_by id u fresh s = refl

  bound_token-finding :
      (txn : CanonicalTransaction) (reasons : List String) (fresh : String) (u v : ℕ)
      → IsSound j (bound_claims txn reasons fresh u) txn.amount
      → v < seconds (u / second + approval_ttl_seconds)
      → evaluate_token j v (some (bound_token txn reasons fresh u)) ≡ bound_to txn
  unfolding evaluate_token verify_approval_token bound_token finding_of text_of bound_claims
      approval_claims new_request
  bound_token-finding txn reasons fresh u v sound k =
      let c = bound_claims txn reasons fresh u in
      rw
        (
          eq-false_of_ne (j.encode_approval c) "" sound.approval_text,
          sound.approval_lives v k,
          sound.decimal_text,
          sound.decimal_text,
        )
        refl

  -- A parked transaction that is granted within the 900 seconds of its parking gives a token. Until
  -- 900 whole seconds after the second of the grant, the token is found valid and bound to the
  -- amount in minor units, the merchant, the currency and the cart of that very transaction.
  pub approval_bound :
      (txn : CanonicalTransaction) (reasons : List String) (fresh : String) (t u v : ℕ)
      (s : Store Value)
      → IsSound j (bound_claims txn reasons fresh u) txn.amount
      → u ≤ t + seconds approval_ttl_seconds
      → v < seconds (u / second + approval_ttl_seconds)
      → let (r, s') = create_request j txn reasons t s in
        (token : String) × ((grant j r.approval_request_id u fresh s').0 ≡ some token)
        × (evaluate_token j v (some token) ≡ bound_to txn)
  unfolding granted_token bound_token bound_claims issue_approval_token create_request
  approval_bound txn reasons fresh t u v s sound h k = (
    bound_token txn reasons fresh u,
    rw (granted_by, load-create txn reasons t u s h) refl,
    bound_token-finding txn reasons fresh u v sound k,
  )
