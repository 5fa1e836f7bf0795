-- ===== src/Approvals.antt =====
-- Human approvals, gateway/approvals.py: a transaction is parked, granted, and retried with a token.
pub mod Bound
use agent_pay_sentinel.Prelude.{
  ℕ, String, ◌<>◌, Bool, true, false, Option, none, some, List, ◌==◌, if◌then◌else◌,
}
use agent_pay_sentinel.Canonical.{CanonicalTransaction}
use agent_pay_sentinel.Money.{to_minor_units}
use agent_pay_sentinel.Pdp.{ApprovalFinding}
use agent_pay_sentinel.Store.{Store, get, set}
use agent_pay_sentinel.Tokens.{
  Jwt, Decoded, ApprovalClaims, claims, expired_signature, invalid_token, issue_approval_token,
  verify_approval_token,
}
use agent_pay_sentinel.Values.{Value, ApprovalRequest, text, outcome, approval}

abbrev pub approval_ttl_seconds : ℕ
approval_ttl_seconds = 900

-- `f"agentpay:approval:{approval_request_id}"`
unfoldable pub approval_key : String → String
approval_key approval_request_id = "agentpay:approval:" <> approval_request_id

-- `s[3:]`
unfoldable pub from_third : String → String
from_third (String.◌∷◌ a (String.◌∷◌ b (String.◌∷◌ c s))) = s
from_third _ = ""

-- `not token`
abbrev is_empty : Option String → Bool
is_empty none = true
is_empty (some t) = t == ""

no_approval : ApprovalFinding
no_approval = record {
  present = false;
  valid = false;
  expired = false;
  bound_amount = none;
  bound_merchant_id = none;
  bound_currency = none;
  bound_cart_hash = none;
}

as_request : Option Value → Option ApprovalRequest
as_request none = none
as_request (some (text s)) = none
as_request (some (outcome h r)) = none
as_request (some (approval r)) = some r

-- No operation keeps another kind of value under an approval's key, at which the code would raise.
unfoldable pub load_request : String → ℕ → Store Value → Option ApprovalRequest × Store Value
unfolding as_request approval_key
load_request approval_request_id now s =
    let (raw, s') = get (approval_key approval_request_id) now s in (as_request raw, s')

text_of : Option String → String
text_of none = ""
text_of (some t) = t

module _ (j : Jwt) where
  unfoldable pub new_request : CanonicalTransaction → List String → ApprovalRequest
  unfolding from_third
  new_request txn reason_codes = record {
    approval_request_id = "ar_" <> from_third txn.payment_authorization_id;
    user_id = txn.user_id;
    merchant_id = txn.merchant_id;
    amount = j.str_decimal txn.amount;
    currency = txn.currency;
    cart_hash = txn.cart_hash;
    reason_codes = reason_codes;
    payment_authorization_id = txn.payment_authorization_id;
    granted = false;
  }

  unfoldable pub create_request :
      CanonicalTransaction → List String → ℕ → Store Value → ApprovalRequest × Store Value
  unfolding new_request approval_key
  create_request txn reason_codes now s =
      let r = new_request txn reason_codes in
      (r, set (approval_key r.approval_request_id) (approval r) (some approval_ttl_seconds) now s)

  granted_token :
      String → ℕ → String → Option ApprovalRequest → Store Value → Option String × Store Value
  unfolding approval_key
  granted_token id now fresh none s = (none, s)
  granted_token id now fresh (some r) s = (
    some (
        issue_approval_token j id r.user_id r.merchant_id (j.decimal r.amount) r.currency
          r.cart_hash approval_ttl_seconds now fresh),
    set (approval_key id) (approval (record r { granted = true })) (some approval_ttl_seconds) now
        s,
  )

  unfoldable pub grant : String → ℕ → String → Store Value → Option String × Store Value
  unfolding granted_token load_request
  grant approval_request_id now fresh s =
      let (request, s') = load_request approval_request_id now s in
      granted_token approval_request_id now fresh request s'

  finding_of : Decoded ApprovalClaims → ApprovalFinding
  unfolding no_approval
  finding_of (claims c) = record {
    present = true;
    valid = true;
    expired = false;
    bound_amount = some (to_minor_units (j.decimal c.bound_amount));
    bound_merchant_id = some c.bound_merchant_id;
    bound_currency = some c.bound_currency;
    bound_cart_hash = some c.bound_cart_hash;
  }
  finding_of expired_signature = record no_approval { present = true; expired = true }
  finding_of invalid_token = record no_approval { present = true }

  unfoldable pub evaluate_token : ℕ → Option String → ApprovalFinding
  unfolding finding_of text_of no_approval
  evaluate_token now token =
      if is_empty token
      then no_approval
      else finding_of (verify_approval_token j now (text_of token))
