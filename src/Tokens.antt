-- ===== src/Tokens.antt =====
-- Scoped payment tokens and approval tokens, gateway/tokens.py. Signing and verifying a JWT (PyJWT)
-- and `str` and `Decimal` on amounts are the library's: arguments.
use agent_pay_sentinel.Prelude.{
  ℕ, ◌+◌, ◌/◌, ◌<◌, String, ◌<>◌, ◌≡◌, ◌≢◌, Option, none, some, eqb, if◌then◌else◌,
}
use agent_pay_sentinel.Clock.{second, seconds}
use agent_pay_sentinel.Money.{Decimal}

pub record AuthorizationClaims : Type 0 where
  pub sub : String
  pub jti : String
  pub iat : ℕ
  pub exp : ℕ
  pub payment_authorization_id : String
  pub agent_id : String
  pub merchant_id : String
  pub amount : String
  pub currency : String
  pub cart_hash : String
  pub max_uses : ℕ
  pub policy_version : String

pub record ApprovalClaims : Type 0 where
  pub sub : String
  pub jti : String
  pub iat : ℕ
  pub exp : ℕ
  pub approval_request_id : String
  pub bound_merchant_id : String
  pub bound_amount : String
  pub bound_currency : String
  pub bound_cart_hash : String

-- The claims, or the exception that `jwt.decode` raises.
pub data Decoded (C : Type 0) : Type 0 where
  claims : C → Decoded C
  expired_signature : Decoded C
  invalid_token : Decoded C

-- The two audiences are two pairs of functions: a token of one is invalid for the other. The number
-- is the time, in microseconds.
pub record Jwt : Type 0 where
  pub encode_authorization : AuthorizationClaims → String
  pub decode_authorization : ℕ → String → Decoded AuthorizationClaims
  pub encode_approval : ApprovalClaims → String
  pub decode_approval : ℕ → String → Decoded ApprovalClaims
  pub str_decimal : Decimal → String
  pub decimal : String → Decimal

-- What PyJWT and `decimal` document, for one set of claims and one amount: the signed token gives
-- the claims back until their `exp`, which is in seconds; it is no empty text; `Decimal(str(d))` is
-- `d`.
pub record IsSound (j : Jwt) (c : ApprovalClaims) (d : Decimal) : Type 0 where
  pub approval_lives :
      (now : ℕ) → now < seconds c.exp → j.decode_approval now (j.encode_approval c) ≡ claims c
  pub approval_text : j.encode_approval c ≢ ""
  pub decimal_text : j.decimal (j.str_decimal d) ≡ d

pub record IssuedToken : Type 0 where
  pub token : String
  pub jti : String
  pub expires_at : ℕ

-- `ttl_seconds or settings.token_ttl_seconds`
abbrev pub ttl_of : Option ℕ → ℕ → ℕ
ttl_of none default = default
ttl_of (some t) default = if eqb t 0 then default else t

-- What the token is bound to.
pub record Binding : Type 0 where
  pub payment_authorization_id : String
  pub user_id : String
  pub agent_id : String
  pub merchant_id : String
  pub amount : Decimal
  pub currency : String
  pub cart_hash : String
  pub policy_version : String

module _ (j : Jwt) where
  unfoldable pub authorization_claims : Binding → Option ℕ → ℕ → ℕ → String → AuthorizationClaims
  authorization_claims b ttl_seconds default now fresh = record {
    sub = b.user_id;
    jti = "pat_" <> fresh;
    iat = now / second;
    exp = now / second + ttl_of ttl_seconds default;
    payment_authorization_id = b.payment_authorization_id;
    agent_id = b.agent_id;
    merchant_id = b.merchant_id;
    amount = j.str_decimal b.amount;
    currency = b.currency;
    cart_hash = b.cart_hash;
    max_uses = 1;
    policy_version = b.policy_version;
  }

  -- `now` is the clock, `fresh` the `uuid4` in the token's `jti`.
  unfoldable pub issue_authorization_token : Binding → Option ℕ → ℕ → ℕ → String → IssuedToken
  unfolding authorization_claims
  issue_authorization_token b ttl_seconds default now fresh =
      let c = authorization_claims b ttl_seconds default now fresh in
      record { token = j.encode_authorization c; jti = c.jti; expires_at = c.exp }

  unfoldable pub verify_authorization_token : ℕ → String → Decoded AuthorizationClaims
  verify_authorization_token now token = j.decode_authorization now token

  unfoldable pub approval_claims :
      String → String → String → Decimal → String → String → ℕ → ℕ → String → ApprovalClaims
  approval_claims request_id user_id merchant_id amount currency cart_hash ttl now fresh = record {
    sub = user_id;
    jti = "apr_" <> fresh;
    iat = now / second;
    exp = now / second + ttl;
    approval_request_id = request_id;
    bound_merchant_id = merchant_id;
    bound_amount = j.str_decimal amount;
    bound_currency = currency;
    bound_cart_hash = cart_hash;
  }

  unfoldable pub issue_approval_token :
      String → String → String → Decimal → String → String → ℕ → ℕ → String → String
  issue_approval_token request_id user_id merchant_id amount currency cart_hash ttl now fresh =
      j.encode_approval
        (approval_claims request_id user_id merchant_id amount currency cart_hash ttl now fresh)

  unfoldable pub verify_approval_token : ℕ → String → Decoded ApprovalClaims
  verify_approval_token now token = j.decode_approval now token
