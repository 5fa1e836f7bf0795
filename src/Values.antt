-- ===== src/Values.antt =====
-- What the gateway keeps in the shared store. The code stores JSON texts; `json.loads` gives back
-- what `json.dumps` was given, so a JSON record stands here as itself, and `text` is any other text.
use agent_pay_sentinel.Prelude.{String, Bool, List}
use agent_pay_sentinel.Schemas.{DecisionResponse}

-- gateway/approvals.py
pub record ApprovalRequest : Type 0 where
  pub approval_request_id : String
  pub user_id : String
  pub merchant_id : String
  pub amount : String
  pub currency : String
  pub cart_hash : String
  pub reason_codes : List String
  pub payment_authorization_id : String
  pub granted : Bool

pub data Value : Type 0 where
  text : String → Value
  -- the payload hash and the stored response of an idempotency record
  outcome : String → DecisionResponse → Value
  approval : ApprovalRequest → Value
