-- ===== src/Samples.antt =====
-- Sample data: the outside world, a transaction and its rows, for runs of the definitions.
mod Audit
mod Access
mod Payments
mod Pipeline
mod Codec
mod Encoded
mod Control
mod Linking
mod Classifier
mod Agent
mod Risk
mod Analysis
use agent_pay_sentinel.Prelude.{ℕ, String, Bool, true, false, Option, none, some, List, [], ◌∷◌}
use agent_pay_sentinel.Audit.{Digest, Outside}
use agent_pay_sentinel.Bearer.{Strings}
use agent_pay_sentinel.Canonical.{CanonicalTransaction, UntrustedContent, Hashing}
use agent_pay_sentinel.Context.{SpendingPolicy, Tables}
use agent_pay_sentinel.Identity.{AgentIdentity, Claims}
use agent_pay_sentinel.Json.{end}
use agent_pay_sentinel.Lifecycle.{PaymentState, created}
use agent_pay_sentinel.Money.{Decimal, down}
use agent_pay_sentinel.Payments.{Row, World, Services}
use agent_pay_sentinel.Schemas.{
  SourceType, official_api, Decision, allow, PaymentIntent, RiskAssessment, no_signals,
  DecisionResponse,
}
use agent_pay_sentinel.Store.{Store}
use agent_pay_sentinel.Tokens.{
  AuthorizationClaims, ApprovalClaims, Jwt, IssuedToken, Decoded, claims,
}
use agent_pay_sentinel.Values.{Value}

abbrev pub policy : SpendingPolicy
policy = record {
  user_id = "u";
  agent_id = "a";
  policy_version = "v1";
  per_transaction_limit = 10000;
  daily_limit = 50000;
  currency = "USD";
  allowed_merchants = [];
  blocked_merchants = [];
  require_verified_merchant = true;
  approval_threshold = 5000;
  max_transactions_per_hour = 10;
  revoked = false;
}

abbrev pub tables : Tables
tables = record { policies = ("d", policy) ∷ []; merchants = []; agents = []; transactions = [] }

abbrev pub ones : String
ones = "1111111111111111111111111111111111111111111111111111111111111111"

abbrev pub digest : Digest
digest = record { sha256 = λ x. ones; dumps = λ b. b.event_id; isoformat = λ n. "now" }

abbrev pub strings : Strings
strings = record { lower = λ s. s; strip = λ s. s }

abbrev pub amount : Decimal
amount = record { negative = false; digits = 4250; exponent = down 2 }

abbrev pub authorization_claims : AuthorizationClaims
authorization_claims = record {
  sub = "u";
  jti = "pat_1";
  iat = 0;
  exp = 300;
  payment_authorization_id = "pa_1";
  agent_id = "a";
  merchant_id = "m";
  amount = "42.50";
  currency = "USD";
  cart_hash = "c";
  max_uses = 1;
  policy_version = "v1";
}

abbrev pub approval_claims : ApprovalClaims
approval_claims = record {
  sub = "u";
  jti = "apr_x";
  iat = 2;
  exp = 902;
  approval_request_id = "ar_1";
  bound_merchant_id = "m";
  bound_amount = "42.50";
  bound_currency = "USD";
  bound_cart_hash = "c";
}

abbrev pub jwt : Jwt
jwt = record {
  encode_authorization = λ c. "authorization";
  decode_authorization = λ now t. claims authorization_claims;
  encode_approval = λ c. "approval";
  decode_approval = λ now t. claims approval_claims;
  str_decimal = λ d. "42.50";
  decimal = λ s. amount;
}

abbrev pub outside : ℕ → Outside
outside n = record { event_id = "evt"; now = 0; settings_policy_version = "v1"; locked = true }

abbrev pub services : Services
services = record {
  digest = digest;
  strings = strings;
  outside = outside;
  jwt = jwt;
  token_ttl_seconds = 300;
  cut = λ s. s;
}

abbrev pub untrusted : UntrustedContent
untrusted = record {
  merchant_text = "";
  merchant_source_type = official_api;
  merchant_source_url = "";
  purpose = "";
  tool_arguments_text = "";
}

abbrev pub txn : CanonicalTransaction
txn = record {
  payment_authorization_id = "pa_1";
  idempotency_key = "k";
  payload_hash = "p";
  fingerprint = "f";
  user_id = "u";
  agent_id = "a";
  delegation_id = "d";
  agent_scopes = "payments:authorize" ∷ [];
  merchant_id = "m";
  merchant_verified_claim = true;
  amount = amount;
  currency = "USD";
  cart_hash = "c";
  item_count = 1;
  untrusted = untrusted;
  approval_token = none;
}

-- The same cart under another key.
abbrev pub other_txn : CanonicalTransaction
other_txn = record txn { payment_authorization_id = "pa_2"; idempotency_key = "k2" }

abbrev pub identity : AgentIdentity
identity = record {
  agent_id = "a";
  user_id = "u";
  delegation_id = "d";
  scopes = "payments:authorize" ∷ [];
  jti = "j";
  issued_at = 0;
  expires_at = 10;
}

abbrev pub intent : PaymentIntent
intent = record {
  idempotency_key = "k";
  agent_id = "a";
  user_id = "u";
  delegation_id = "d";
  merchant_id = "m";
  merchant_verified = true;
  amount = amount;
  currency = "USD";
  items = [];
  purpose = "";
  merchant_content = record { source_type = official_api; source_url = ""; text = "" };
  tool_arguments = end;
  approval_token = none;
}

abbrev pub risk : RiskAssessment
risk = record { signals = no_signals; weighted_score = 0; policy_version_context = "v1" }

abbrev pub empty_store : Store Value
empty_store = record { kv = []; sets = []; zsets = [] }

abbrev pub empty_world : World
empty_world = record { rows = []; log = []; tried = 0; posts = [] }

abbrev pub issued : IssuedToken
issued = record { token = "authorization"; jti = "pat_1"; expires_at = 300 }

abbrev pub row : Row
row = record {
  idempotency_key = "k";
  payload_hash = "p";
  fingerprint = "f";
  user_id = "u";
  agent_id = "a";
  delegation_id = "d";
  merchant_id = "m";
  amount = amount;
  currency = "USD";
  cart_hash = "c";
  decision = allow;
  reason_codes = [];
  state = PaymentState.authorized;
  risk = risk;
  policy_version = "v1";
  token_jti = some "pat_1";
  token_uses = 0;
  token_expires_at = some 300;
  provider_reference = none;
  provider_detail = none;
  created_at = 0;
}

abbrev pub one_row : World
one_row = record empty_world { rows = ("pa_1", row) ∷ [] }

abbrev pub stored : DecisionResponse
stored = record {
  payment_authorization_id = "pa_1";
  decision = allow;
  reason_codes = [];
  state = PaymentState.confirmed;
  risk = risk;
  policy_version = "v1";
  authorization = none;
  provider_reference = none;
  audit_event_id = none;
  audit_hash = none;
  created_at = 0;
  replayed = false;
  message = "payment confirmed";
}
