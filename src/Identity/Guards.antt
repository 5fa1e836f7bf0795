-- ===== src/Identity/Guards.antt =====
-- gateway/identity.py: the checks behind `authenticate`.
use agent_pay_sentinel.Prelude.{
  String, ◌≡◌, refl, ◌≢◌, Bool, true, false, Option, none, some, arith, elem, eq_iff,
}
use agent_pay_sentinel.Bearer.{Strings, bearer}
use agent_pay_sentinel.Result.{ok, value_passed, check_passed}
use agent_pay_sentinel.Schemas.{PaymentIntent}
use agent_pay_sentinel.Store.{Store, revocation_set, sismember}
use agent_pay_sentinel.Identity.{
  AgentIdentity, Decoded, required_scope, decode_delegation_token, assert_binding, assert_scope,
  assert_not_revoked, authenticate, verify_bearer,
}

binding_ok :
    (i : AgentIdentity) (intent : PaymentIntent)
    → assert_binding i intent ≡ ok tt
    → (i.agent_id ≡ intent.agent_id)
      × (i.user_id ≡ intent.user_id)
      × (i.delegation_id ≡ intent.delegation_id)
unfolding assert_binding
binding_ok i intent h = ground (
  arith,
  eq_iff i.agent_id intent.agent_id,
  eq_iff i.user_id intent.user_id,
  eq_iff i.delegation_id intent.delegation_id,
)

scope_ok : (i : AgentIdentity) → assert_scope i ≡ ok tt → elem required_scope i.scopes ≡ true
unfolding assert_scope
scope_ok i h = ground arith

module _ {V : Type 0} where
  -- A bearer token was presented, the decoder accepted it, its claims name the user, the agent and
  -- the delegation of the intent, it carries the scope, and its delegation is not in the revocation
  -- set, which could be read.
  pub record Passed (py : Strings) (decode : String → Decoded) (up : Bool) (header : Option String)
      (intent : PaymentIntent) (s : Store V) (i : AgentIdentity) : Type 0 where
    pub token : String
    pub presented : bearer py header ≡ some token
    pub decoded : decode_delegation_token decode token ≡ ok i
    pub same_agent : i.agent_id ≡ intent.agent_id
    pub same_user : i.user_id ≡ intent.user_id
    pub same_delegation : i.delegation_id ≡ intent.delegation_id
    pub scoped : elem required_scope i.scopes ≡ true
    pub readable : up ≡ true
    pub unrevoked : sismember revocation_set i.delegation_id s ≡ false

  revoked_ok :
      (delegation_id : String) (up : Bool) (s : Store V)
      → assert_not_revoked delegation_id up s ≡ ok tt
      → (up ≡ true) × (sismember revocation_set delegation_id s ≡ false)
  unfolding assert_not_revoked
  revoked_ok delegation_id up s h = ground arith

  verify_bearer-Passed :
      (py : Strings) (decode : String → Decoded) (up : Bool) (header o : Option String)
      (intent : PaymentIntent) (s : Store V) (i : AgentIdentity)
      → bearer py header ≡ o
      → verify_bearer decode up o intent s ≡ ok i
      → Passed py decode up header intent s i
  unfolding verify_bearer
  verify_bearer-Passed py decode up header none intent s i e h = cc
  verify_bearer-Passed py decode up header (some token) intent s i e h =
      let (j, decoded, h₁) = value_passed _ (decode_delegation_token decode token) h in
      let (bound, h₂) = check_passed _ (assert_binding j intent) h₁ in
      let (scoped, h₃) = check_passed _ (assert_scope j) h₂ in
      let (unrevoked, same) = check_passed _ (assert_not_revoked j.delegation_id up s) h₃ in
      let (agent, user, delegation) = binding_ok j intent bound in
      let (readable, absent) = revoked_ok j.delegation_id up s unrevoked in
      record {
        token = token;
        presented = e;
        decoded = cc;
        same_agent = cc;
        same_user = cc;
        same_delegation = cc;
        scoped = cc (scope_ok j scoped, same);
        readable = readable;
        unrevoked = cc;
      }

  -- An identity is returned only if all of `Passed` holds of it: every other path through
  -- `authenticate` ends in an `IdentityError`.
  pub authenticate-Passed :
      (py : Strings) (decode : String → Decoded) (up : Bool) (header : Option String)
      (intent : PaymentIntent) (s : Store V) (i : AgentIdentity)
      → authenticate py decode up header intent s ≡ ok i
      → Passed py decode up header intent s i
  unfolding authenticate
  authenticate-Passed py decode up header intent s i h =
      verify_bearer-Passed py decode up header (bearer py header) intent s i refl h

  -- An unreadable revocation set fails closed: no header and no token is accepted.
  pub revocation_outage_fails_closed :
      (py : Strings) (decode : String → Decoded) (header : Option String) (intent : PaymentIntent)
      (s : Store V) (i : AgentIdentity)
      → authenticate py decode false header intent s ≢ ok i
  revocation_outage_fails_closed py decode header intent s i h =
      cc ((authenticate-Passed py decode false header intent s i h).readable)
