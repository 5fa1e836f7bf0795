-- ===== src/Pdp.antt =====
-- The client of the policy decision point, gateway/pdp.py: what is sent to OPA, and what is made of
-- its answer. OPA itself, and the HTTP call to it, are an argument.
pub mod FailClosed
use agent_pay_sentinel.Prelude.{
  ℕ, String, ◌<>◌, Bool, true, false, Option, none, some, List, [], ◌∷◌, ◌==◌, if◌then◌else◌,
}
use agent_pay_sentinel.Canonical.{CanonicalTransaction}
use agent_pay_sentinel.Context.{PolicyContext}
use agent_pay_sentinel.Money.{ℤ, numeric, to_minor_units}
use agent_pay_sentinel.Schemas.{Decision, allow, require_approval, block, RiskAssessment}

pub record IdentityFinding : Type 0 where
  pub valid : Bool
  pub user_id : String
  pub reason_codes : List String

pub record DuplicateFinding : Type 0 where
  pub idempotency_conflict : Bool
  pub fingerprint_conflict : Bool
  pub detail : String

pub record ApprovalFinding : Type 0 where
  pub present : Bool
  pub valid : Bool
  pub expired : Bool
  pub bound_amount : Option ℤ
  pub bound_merchant_id : Option String
  pub bound_currency : Option String
  pub bound_cart_hash : Option String

pub record PdpResult : Type 0 where
  pub decision : Decision
  pub reason_codes : List String
  pub policy_version : String
  pub weighted_score : ℕ
  pub deny_reasons : List String
  pub approval_reasons : List String
  pub pdp_available : Bool

-- The fields of `AnalysisResult` that the policy sees.
pub record Security : Type 0 where
  pub injection_confidence : ℕ
  pub injection_labels : List String
  pub classifier_degraded : Bool
  pub deterministic_confidence : ℕ
  pub source_trust_score : ℕ

pub record TransactionInput : Type 0 where
  pub user_id : String
  pub agent_id : String
  pub delegation_id : String
  pub merchant_id : String
  pub merchant_verified_claim : Bool
  pub amount : ℤ
  pub currency : String
  pub cart_hash : String
  pub item_count : ℕ
  pub agent_scopes : List String

pub record ContextInput : Type 0 where
  pub facts : PolicyContext
  pub per_transaction_limit : ℤ
  pub daily_limit : ℤ
  pub approval_threshold : ℤ
  pub spent_today : ℤ
  pub allow_degraded_classifier : Bool
  pub degraded_classifier_requires_review : Bool

pub record PolicyInput : Type 0 where
  pub identity : IdentityFinding
  pub transaction : TransactionInput
  pub security : Security
  pub risk : RiskAssessment
  pub context : ContextInput
  pub approval : ApprovalFinding
  pub idempotency_conflict : Bool
  pub fingerprint_conflict : Bool

unfoldable pub build_input :
    CanonicalTransaction
    → PolicyContext
    → Security
    → RiskAssessment
    → IdentityFinding
    → DuplicateFinding
    → ApprovalFinding
    → Bool
    → Bool
    → PolicyInput
build_input txn ctx security risk identity duplicate approval allow_degraded review = record {
  identity = identity;
  transaction = record {
    user_id = txn.user_id;
    agent_id = txn.agent_id;
    delegation_id = txn.delegation_id;
    merchant_id = txn.merchant_id;
    merchant_verified_claim = txn.merchant_verified_claim;
    amount = to_minor_units txn.amount;
    currency = txn.currency;
    cart_hash = txn.cart_hash;
    item_count = txn.item_count;
    agent_scopes = txn.agent_scopes;
  };
  security = security;
  risk = risk;
  context = record {
    facts = ctx;
    per_transaction_limit = to_minor_units (numeric ctx.per_transaction_limit);
    daily_limit = to_minor_units (numeric ctx.daily_limit);
    approval_threshold = to_minor_units (numeric ctx.approval_threshold);
    spent_today = to_minor_units (numeric ctx.spent_today);
    allow_degraded_classifier = allow_degraded;
    degraded_classifier_requires_review = review;
  };
  approval = approval;
  idempotency_conflict = duplicate.idempotency_conflict;
  fingerprint_conflict = duplicate.fingerprint_conflict;
}

-- The `result` object of OPA's answer. `decision` is `none` where the key is missing, and the empty
-- text where its value is no text, null included; of the other fields one that is missing, null or
-- empty is `none`.
pub record OpaResult : Type 0 where
  pub decision : Option String
  pub reason_codes : Option (List String)
  pub policy_version : Option String
  pub weighted_score : Option ℕ
  pub deny_reasons : Option (List String)
  pub approval_reasons : Option (List String)

-- How the call to OPA ends: with an HTTP error of some class, with a body that is no JSON, with no
-- result object, or with one.
pub data OpaReply : Type 0 where
  http_error : String → OpaReply
  invalid_json : OpaReply
  undefined : OpaReply
  result : OpaResult → OpaReply

-- `Decision(value)`
unfoldable pub parse_decision : String → Option Decision
parse_decision s =
    if s == "ALLOW"
    then some allow
    else if s == "REQUIRE_APPROVAL"
    then some require_approval
    else if s == "BLOCK"
    then some block
    else none

abbrev pub or_else {ℓ} : {A : Type ℓ} → Option A → A → A
or_else none d = d
or_else (some a) d = a

-- `cut` is `[:120]`.
unavailable : (String → String) → String → String → PdpResult
unavailable cut policy_version detail = record {
  decision = block;
  reason_codes = "PDP_UNAVAILABLE_FAIL_CLOSED" ∷ cut ("PDP_DETAIL:" <> detail) ∷ [];
  policy_version = policy_version;
  weighted_score = 0;
  deny_reasons = "PDP_UNAVAILABLE_FAIL_CLOSED" ∷ [];
  approval_reasons = [];
  pdp_available = false;
}

decided : (String → String) → String → OpaResult → Option Decision → PdpResult
unfolding unavailable
decided cut declared r none = unavailable cut declared "unknown_decision_value"
decided cut declared r (some decision) = record {
  decision = decision;
  reason_codes = or_else r.reason_codes [];
  policy_version = or_else r.policy_version declared;
  weighted_score = or_else r.weighted_score 0;
  deny_reasons = or_else r.deny_reasons [];
  approval_reasons = or_else r.approval_reasons [];
  pdp_available = true;
}

from_result : (String → String) → String → OpaResult → Option String → PdpResult
unfolding decided unavailable parse_decision
from_result cut declared r none = unavailable cut declared "undefined_result"
from_result cut declared r (some s) = decided cut declared r (parse_decision s)

unfoldable pub interpret : (String → String) → String → OpaReply → PdpResult
unfolding from_result unavailable
interpret cut declared (http_error name) = unavailable cut declared name
interpret cut declared invalid_json = unavailable cut declared "invalid_json"
interpret cut declared undefined = unavailable cut declared "undefined_result"
interpret cut declared (result r) = from_result cut declared r r.decision

unfoldable pub evaluate : (String → String) → (PolicyInput → OpaReply) → PolicyInput → PdpResult
unfolding interpret
evaluate cut opa input = interpret cut input.context.facts.policy_version (opa input)
