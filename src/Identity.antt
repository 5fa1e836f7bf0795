-- ===== src/Identity.antt =====
-- Identity and request integrity, gateway/identity.py. Decoding a JWT (PyJWT: signature, expiry,
-- issuer, audience, required claims) is an argument that answers with the claims or with the
-- exception that it raises.
pub mod Guards
pub mod Accepting
use mathlib.Core.List.{filter}
use agent_pay_sentinel.Prelude.{
  ℕ, String, ◌<>◌, Bool, true, false, not, ◌&&◌, ◌||◌, Option, none, some, List, [], ◌∷◌, ◌++◌,
  elem, ◌==◌, if◌then◌else◌,
}
use agent_pay_sentinel.Bearer.{Strings, bearer}
use agent_pay_sentinel.Result.{Result, ok, err, ◌>>=◌, ◌>>◌}
use agent_pay_sentinel.Schemas.{PaymentIntent}
use agent_pay_sentinel.Store.{Store, revocation_set, sismember}

abbrev pub required_scope : String
required_scope = "payments:authorize"

pub record IdentityError : Type 0 where
  pub reason_code : String
  pub message : String

pub record AgentIdentity : Type 0 where
  pub agent_id : String
  pub user_id : String
  pub delegation_id : String
  pub scopes : List String
  pub jti : String
  pub issued_at : ℕ
  pub expires_at : ℕ

-- The claims of a decoded token. `sub`, `jti`, `iat` and `exp` are required by the decoder;
-- `agent_id`, `delegation_id` and `scopes` may be missing.
pub record Claims : Type 0 where
  pub sub : String
  pub jti : String
  pub iat : ℕ
  pub exp : ℕ
  pub agent_id : Option String
  pub delegation_id : Option String
  pub scopes : Option (List String)

pub data Decoded : Type 0 where
  claims : Claims → Decoded
  expired_signature : Decoded
  invalid_token : String → Decoded

-- `not claims.get(c)`
abbrev pub missing : Option String → Bool
missing none = true
missing (some s) = s == ""

abbrev pub text_of : Option String → String
text_of none = ""
text_of (some s) = s

abbrev pub list_of : Option (List String) → List String
list_of none = []
list_of (some l) = l

-- `",".join(parts)`
abbrev pub join : List String → String
join [] = ""
join (p ∷ []) = p
join (p ∷ q ∷ ps) = p <> "," <> join (q ∷ ps)

abbrev only_if : Bool → String → List String
only_if b s = if b then s ∷ [] else []

raise : {A : Type 0} → String → String → Result IdentityError A
raise code message = err (record { reason_code = code; message = message })

-- The answer of the decoder, as `decode_delegation_token` goes on from it.
identity_of : Decoded → Result IdentityError AgentIdentity
unfolding raise
identity_of expired_signature = raise "DELEGATION_EXPIRED" "delegation token expired"
identity_of (invalid_token why) = raise "INVALID_IDENTITY" ("invalid delegation token: " <> why)
identity_of (claims c) =
    if missing c.agent_id || missing c.delegation_id
    then raise "INVALID_IDENTITY" (
        "delegation token missing claims: "
        <> join (
            only_if (missing c.agent_id) "agent_id"
            ++ only_if (missing c.delegation_id) "delegation_id"))
    else ok (record {
      agent_id = text_of c.agent_id;
      user_id = c.sub;
      delegation_id = text_of c.delegation_id;
      scopes = list_of c.scopes;
      jti = c.jti;
      issued_at = c.iat;
      expires_at = c.exp;
    })

unfoldable pub decode_delegation_token :
    (String → Decoded) → String → Result IdentityError AgentIdentity
unfolding identity_of
decode_delegation_token decode token = identity_of (decode token)

unfoldable pub assert_scope : AgentIdentity → Result IdentityError (Unit {0})
unfolding raise
assert_scope i =
    if elem required_scope i.scopes
    then ok tt
    else raise "AGENT_SCOPE_VIOLATION"
        ("agent " <> i.agent_id <> " lacks required scope " <> required_scope)

unfoldable pub assert_binding : AgentIdentity → PaymentIntent → Result IdentityError (Unit {0})
unfolding raise
assert_binding i intent =
    if i.agent_id == intent.agent_id
      && (i.user_id == intent.user_id && i.delegation_id == intent.delegation_id)
    then ok tt
    else raise "IDENTITY_INTENT_MISMATCH" (
        "delegation token does not match intent fields: "
        <> join (
            only_if (not (i.agent_id == intent.agent_id)) "agent_id"
            ++ only_if (not (i.user_id == intent.user_id)) "user_id"
            ++ only_if (not (i.delegation_id == intent.delegation_id)) "delegation_id"))

module _ {V : Type 0} where
  -- `up` is whether the set can be read; where it cannot, the check fails closed.
  unfoldable pub assert_not_revoked : String → Bool → Store V → Result IdentityError (Unit {0})
  unfolding raise
  assert_not_revoked delegation_id up s =
      if up
      then (if sismember revocation_set delegation_id s
          then raise "DELEGATION_REVOKED" "delegation has been revoked"
          else ok tt)
      else raise "REVOCATION_CHECK_UNAVAILABLE"
          "cannot verify delegation revocation status; failing closed"

  verify_bearer :
      (String → Decoded)
      → Bool
      → Option String
      → PaymentIntent
      → Store V
      → Result IdentityError AgentIdentity
  unfolding raise decode_delegation_token assert_binding assert_scope assert_not_revoked
  verify_bearer decode up none intent s =
      raise "MISSING_CREDENTIALS" "missing bearer delegation token"
  verify_bearer decode up (some token) intent s = do
    identity ← decode_delegation_token decode token
    assert_binding identity intent
    assert_scope identity
    assert_not_revoked identity.delegation_id up s
    ok identity

  unfoldable pub authenticate :
      Strings
      → (String → Decoded)
      → Bool
      → Option String
      → PaymentIntent
      → Store V
      → Result IdentityError AgentIdentity
  unfolding verify_bearer bearer
  authenticate py decode up authorization intent s =
      verify_bearer decode up (bearer py authorization) intent s
