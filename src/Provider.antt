-- ===== src/Provider.antt =====
-- The payment provider of the demo, mock_provider/main.py: the charge endpoint with its checks of the
-- authorization token, and the control endpoints.
pub mod Tokens
pub mod SingleUse
use agent_pay_sentinel.Prelude.{
  ℕ, suc, String, ◌<>◌, ◌==◌, Bool, true, false, not, Option, none, some, List, [], ◌∷◌, ◌++◌, Dict,
  lookup, insert, elem, length, take, if◌then◌else◌,
}
use agent_pay_sentinel.Bearer.{Strings, bearer}
use agent_pay_sentinel.Identity.{join}
use agent_pay_sentinel.Tokens.{
  Jwt, Decoded, claims, expired_signature, invalid_token, AuthorizationClaims,
  verify_authorization_token,
}

pub data Behaviour : Type 0 where
  success decline error timeout : Behaviour

pub record ChargeRequest : Type 0 where
  pub payment_authorization_id : String
  pub idempotency_key : String
  pub amount : String
  pub currency : String
  pub merchant_id : String
  pub cart_hash : String

pub record CallEntry : Type 0 where
  pub at : ℕ
  pub payment_authorization_id : String
  pub amount : String
  pub merchant_id : String

pub data ChargeRecord : Type 0 where
  declined : ChargeRecord
  -- the reference, the amount, the currency, the merchant and the time
  confirmed : String → String → String → String → ℕ → ChargeRecord

pub record ProviderState : Type 0 where
  pub behaviour : Behaviour
  pub timeout_delay_seconds : ℕ
  pub charges : Dict ChargeRecord
  pub consumed_jti : List String
  pub call_count : ℕ
  -- the latest first
  pub calls : List CallEntry

pub data Answer : Type 0 where
  http_exception : ℕ → String → Answer
  -- `InvalidOperation` of `Decimal`, which leaves the handler
  invalid_decimal : Answer
  charged : String → Answer
  card_declined : Answer
  -- the answer that comes only after the delay, in seconds
  late : ℕ → String → Answer

unfoldable pub set_behaviour : Behaviour → Option ℕ → ProviderState → ProviderState
set_behaviour b none s = record s { behaviour = b }
set_behaviour b (some delay) s = record s { behaviour = b; timeout_delay_seconds = delay }

-- the number of calls, the number of charges, and the last 25 calls
unfoldable pub stats : ProviderState → ℕ × ℕ × List CallEntry
stats s = (s.call_count, length s.charges, take 25 s.calls)

unfoldable pub reset : ProviderState → ProviderState
reset s = record s { charges = []; consumed_jti = []; call_count = 0; calls = [] }

-- `none` is the 404.
unfoldable pub get_charge : String → ProviderState → Option ChargeRecord
get_charge payment_authorization_id s = lookup payment_authorization_id s.charges

abbrev pub unless : Bool → String → List String
unless true field = []
unless false field = field ∷ []

unfoldable pub mismatches : AuthorizationClaims → ChargeRequest → Bool → List String
mismatches c body same_amount =
    unless (c.merchant_id == body.merchant_id) "merchant_id"
    ++ (unless (c.currency == body.currency) "currency"
        ++ (unless (c.cart_hash == body.cart_hash) "cart_hash"
            ++ (unless (c.payment_authorization_id == body.payment_authorization_id)
                  "payment_authorization_id"
                ++ unless same_amount "amount")))

module _ (py : Strings) (j : Jwt) (decimal_eq : String → String → Option Bool) where
  -- `decimal_eq` compares two texts as decimals, unless one of them is none.

  abbrev pub logged : ChargeRequest → ℕ → ProviderState → ProviderState
  logged body now s = record s {
    call_count = suc s.call_count;
    calls =
        record {
          at = now;
          payment_authorization_id = body.payment_authorization_id;
          amount = body.amount;
          merchant_id = body.merchant_id;
        }
        ∷ s.calls;
  }

  -- A charge whose token is good, by the behaviour that is set.
  unfoldable pub behave :
      ChargeRequest → String → ℕ → String → Behaviour → ProviderState → Answer × ProviderState
  behave body jti now fresh timeout s = (late s.timeout_delay_seconds ("ch_" <> fresh), s)
  behave body jti now fresh error s = (http_exception 502 "provider upstream error", s)
  behave body jti now fresh decline s = (
    card_declined,
    record s {
      consumed_jti = jti ∷ s.consumed_jti;
      charges = insert body.payment_authorization_id declined s.charges;
    },
  )
  behave body jti now fresh success s = (
    charged ("ch_" <> fresh),
    record s {
      consumed_jti = jti ∷ s.consumed_jti;
      charges =
          insert body.payment_authorization_id
            (confirmed ("ch_" <> fresh) body.amount body.currency body.merchant_id now) s.charges;
    },
  )

  unfoldable pub unless_mismatched :
      ChargeRequest
      → AuthorizationClaims
      → ℕ
      → String
      → ProviderState
      → List String
      → Answer × ProviderState
  unfolding behave
  unless_mismatched body c now fresh s [] = behave body c.jti now fresh s.behaviour s
  unless_mismatched body c now fresh s (f ∷ fs) =
      (http_exception 422 ("charge does not match authorization token: " <> join (f ∷ fs)), s)

  unfoldable pub compared :
      ChargeRequest
      → AuthorizationClaims
      → ℕ
      → String
      → ProviderState
      → Option Bool
      → Answer × ProviderState
  unfolding unless_mismatched mismatches
  compared body c now fresh s none = (invalid_decimal, s)
  compared body c now fresh s (some same_amount) =
      unless_mismatched body c now fresh s (mismatches c body same_amount)

  unfoldable pub with_claims :
      ChargeRequest
      → ℕ
      → String
      → ProviderState
      → Decoded AuthorizationClaims
      → Answer × ProviderState
  unfolding compared
  with_claims body now fresh s expired_signature =
      (http_exception 401 "authorization token expired", s)
  with_claims body now fresh s invalid_token = (http_exception 401 "invalid authorization token", s)
  with_claims body now fresh s (claims c) =
      if elem c.jti s.consumed_jti
      then (http_exception 409 "authorization token already used", s)
      else compared body c now fresh s (decimal_eq c.amount body.amount)

  unfoldable pub with_token :
      ChargeRequest → ℕ → String → ProviderState → Option String → Answer × ProviderState
  unfolding with_claims
  with_token body now fresh s none = (http_exception 401 "missing authorization token", s)
  with_token body now fresh s (some token) =
      with_claims body now fresh s (verify_authorization_token j now token)

  unfoldable pub create_charge :
      ChargeRequest → Option String → ℕ → String → ProviderState → Answer × ProviderState
  unfolding with_token
  create_charge body authorization now fresh s =
      with_token body now fresh (logged body now s) (bearer py authorization)
