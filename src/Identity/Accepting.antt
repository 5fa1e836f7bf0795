-- ===== src/Identity/Accepting.antt =====
-- gateway/identity.py: the credentials that `authenticate` lets through.
use agent_pay_sentinel.Prelude.{
  String, ◌≡◌, ◌≢◌, refl, true, false, Option, some, elem, eq_refl, eq-false_of_ne,
}
use agent_pay_sentinel.Bearer.{Strings, bearer}
use agent_pay_sentinel.Identity.{
  AgentIdentity, Decoded, claims, required_scope, decode_delegation_token, assert_binding,
  assert_scope, assert_not_revoked, authenticate, verify_bearer,
}
use agent_pay_sentinel.Result.{ok}
use agent_pay_sentinel.Schemas.{PaymentIntent}
use agent_pay_sentinel.Store.{Store, revocation_set, sismember}

-- An identity with the payment scope, for a payment on behalf of what it names.
pub record IsFor (i : AgentIdentity) (intent : PaymentIntent) : Type 0 where
  pub agent : i.agent_id ≡ intent.agent_id
  pub user : i.user_id ≡ intent.user_id
  pub delegation : i.delegation_id ≡ intent.delegation_id
  pub scope : elem required_scope i.scopes ≡ true

-- The claims of an identity, none of them missing.
abbrev pub decoded_as : AgentIdentity → Decoded
decoded_as i = claims (record {
  sub = i.user_id;
  jti = i.jti;
  iat = i.issued_at;
  exp = i.expires_at;
  agent_id = some i.agent_id;
  delegation_id = some i.delegation_id;
  scopes = some i.scopes;
})

module _ (i : AgentIdentity) where
  decodes :
      (decode : String → Decoded) (token : String)
      → decode token ≡ decoded_as i
      → i.agent_id ≢ ""
      → i.delegation_id ≢ ""
      → decode_delegation_token decode token ≡ ok i
  unfolding decode_delegation_token
  decodes decode token sound agent delegation =
      rw (sound, eq-false_of_ne i.agent_id "" agent, eq-false_of_ne i.delegation_id "" delegation)
        refl

  binds : (intent : PaymentIntent) → IsFor i intent → assert_binding i intent ≡ ok tt
  unfolding assert_binding
  binds intent f =
      rw
        (
          f.agent,
          f.user,
          f.delegation,
          eq_refl intent.agent_id,
          eq_refl intent.user_id,
          eq_refl intent.delegation_id,
        )
        refl

  scoped : (intent : PaymentIntent) → IsFor i intent → assert_scope i ≡ ok tt
  unfolding assert_scope
  scoped intent f = rw f.scope refl

  unrevoked :
      {V : Type 0} (s : Store V)
      → sismember revocation_set i.delegation_id s ≡ false
      → assert_not_revoked i.delegation_id true s ≡ ok tt
  unfolding assert_not_revoked
  unrevoked s h = rw h refl

  verifies :
      {V : Type 0} (decode : String → Decoded) (token : String) (intent : PaymentIntent)
      (s : Store V)
      → decode token ≡ decoded_as i
      → i.agent_id ≢ ""
      → i.delegation_id ≢ ""
      → IsFor i intent
      → sismember revocation_set i.delegation_id s ≡ false
      → verify_bearer decode true (some token) intent s ≡ ok i
  unfolding verify_bearer
  verifies decode token intent s sound agent delegation f h =
      rw (
        decodes decode token sound agent delegation,
        binds intent f,
        scoped intent f,
        unrevoked s h,
      )

  pub authenticate_accepts :
      {V : Type 0} (py : Strings) (decode : String → Decoded) (header : Option String)
      (token : String) (intent : PaymentIntent) (s : Store V)
      → bearer py header ≡ some token
      → decode token ≡ decoded_as i
      → i.agent_id ≢ ""
      → i.delegation_id ≢ ""
      → IsFor i intent
      → sismember revocation_set i.delegation_id s ≡ false
      → authenticate py decode true header intent s ≡ ok i
  unfolding authenticate
  authenticate_accepts py decode header token intent s presented sound agent delegation f h =
      at_bearer (bearer py header) presented
    where
      at_bearer : (o : Option String) → o ≡ some token → verify_bearer decode true o intent s ≡ ok i
      at_bearer o e = rw e (verifies decode token intent s sound agent delegation f h)
