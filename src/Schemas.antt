-- ===== src/Schemas.antt =====
-- The wire schemas, gateway/schemas.py. Scores and confidences are floats that the code rounds to
-- three decimals (the weighted score to two); they are carried here as thousandths and hundredths.
-- The bounds that pydantic checks on a field before the handler runs are not part of the types.
use agent_pay_sentinel.Prelude.{ℕ, String, Bool, false, Option, List, []}
use agent_pay_sentinel.Json.{Fields}
use agent_pay_sentinel.Lifecycle.{PaymentState}
use agent_pay_sentinel.Money.{Decimal}

pub data SourceType : Type 0 where
  official_api verified_catalog scraped_page email user_upload unattributed : SourceType

pub data Decision : Type 0 where
  allow require_approval block : Decision

-- `Decision.value`
abbrev pub value : Decision → String
value allow = "ALLOW"
value require_approval = "REQUIRE_APPROVAL"
value block = "BLOCK"

-- `PaymentState.value`
abbrev pub state_value : PaymentState → String
state_value PaymentState.created = "CREATED"
state_value PaymentState.authorized = "AUTHORIZED"
state_value PaymentState.submitted = "SUBMITTED"
state_value PaymentState.confirmed = "CONFIRMED"
state_value PaymentState.failed = "FAILED"
state_value PaymentState.timeout = "TIMEOUT"
state_value PaymentState.unknown = "UNKNOWN"
state_value PaymentState.expired = "EXPIRED"

pub record CartItem : Type 0 where
  pub sku : String
  pub name : String
  pub quantity : ℕ
  pub unit_price : Decimal

pub record MerchantContent : Type 0 where
  pub source_type : SourceType
  pub source_url : String
  pub text : String

pub record PaymentIntent : Type 0 where
  pub idempotency_key : String
  pub agent_id : String
  pub user_id : String
  pub delegation_id : String
  pub merchant_id : String
  pub merchant_verified : Bool
  pub amount : Decimal
  pub currency : String
  pub items : List CartItem
  pub purpose : String
  pub merchant_content : MerchantContent
  pub tool_arguments : Fields
  pub approval_token : Option String

pub record RiskSignals : Type 0 where
  pub injection_confidence : ℕ
  pub injection_labels : List String
  pub policy_violation_score : ℕ
  pub budget_anomaly_score : ℕ
  pub merchant_risk_score : ℕ
  pub velocity_risk_score : ℕ
  pub source_trust_score : ℕ
  pub classifier_degraded : Bool

pub record RiskAssessment : Type 0 where
  pub signals : RiskSignals
  pub weighted_score : ℕ
  pub policy_version_context : String

pub record AuthorizationToken : Type 0 where
  pub token : String
  pub payment_authorization_id : String
  pub merchant_id : String
  pub amount : Decimal
  pub currency : String
  pub cart_hash : String
  pub expires_at : ℕ
  pub max_uses : ℕ
  pub policy_version : String

pub record DecisionResponse : Type 0 where
  pub payment_authorization_id : String
  pub decision : Decision
  pub reason_codes : List String
  pub state : PaymentState
  pub risk : RiskAssessment
  pub policy_version : String
  pub authorization : Option AuthorizationToken
  pub provider_reference : Option String
  pub audit_event_id : Option String
  pub audit_hash : Option String
  pub created_at : ℕ
  pub replayed : Bool
  pub message : String

-- `RiskSignals()`
abbrev pub no_signals : RiskSignals
no_signals = record {
  injection_confidence = 0;
  injection_labels = [];
  policy_violation_score = 0;
  budget_anomaly_score = 0;
  merchant_risk_score = 0;
  velocity_risk_score = 0;
  source_trust_score = 1000;
  classifier_degraded = false;
}
