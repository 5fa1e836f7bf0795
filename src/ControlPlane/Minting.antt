-- ===== src/ControlPlane/Minting.antt =====
-- control_plane/keys.py with gateway/identity.py: a minted delegation token at the gateway.
use agent_pay_sentinel.Prelude.{
  ℕ, ◌+◌, ◌/◌, ◌≤◌, ◌<◌, String, ◌<>◌, ◌≡◌, ◌≢◌, refl, ap, ◌∙◌, true, false, Option, none, some, [],
  ◌∷◌, Option-cases, inl, inr,
}
use agent_pay_sentinel.Admin.{
  AdminHeaders, DelegationClaims, TokenIn, delegation_claims, sign_delegation_token, expiry,
}
use agent_pay_sentinel.Bearer.{Strings, bearer}
use agent_pay_sentinel.Clock.{second}
use agent_pay_sentinel.ControlPlane.{Service, Outside, Plane, post_token, token}
use agent_pay_sentinel.ControlPlane.Door.{keyed, handle-keyed}
use agent_pay_sentinel.ControlPlane.Routes.{perform, handle, issue_token, recorded}
use agent_pay_sentinel.Identity.{AgentIdentity, Decoded, claims, authenticate}
use agent_pay_sentinel.Identity.Accepting.{IsFor, decoded_as, authenticate_accepts}
use agent_pay_sentinel.Money.{pos}
use agent_pay_sentinel.Result.{ok}
use agent_pay_sentinel.Schemas.{PaymentIntent}
use agent_pay_sentinel.Store.{Store, revocation_set, sismember}

abbrev pub minted_claims : Service → Outside → TokenIn → DelegationClaims
minted_claims sv out b = delegation_claims sv.str sv.settings (out.now / second) b

-- The identity that the body asks for, for `ttl` seconds from now; without scopes, the payment scope.
abbrev pub asked_identity : Service → Outside → TokenIn → ℕ → AgentIdentity
asked_identity sv out b ttl = record {
  agent_id = b.agent_id;
  user_id = b.user_id;
  delegation_id = b.delegation_id;
  scopes = elim b.scopes [ none ↦ "payments:authorize" ∷ [] | some scopes ↦ scopes ];
  jti = "jti_" <> sv.str (out.now / second) <> "_" <> b.delegation_id;
  issued_at = out.now / second;
  expires_at = out.now / second + ttl;
}

-- What `jwt.decode` documents of a token that was signed with the other half of the key pair: it gives
-- the claims back where they name the issuer and the audience that are asked for, at a time that is
-- not before they were issued and is before they expire.
pub record Reads (encode : DelegationClaims → String) (decode : String → Decoded)
    (issuer audience : String) (later : ℕ) : Type 0 where
  pub verified :
      (c : DelegationClaims)
      → c.iss ≡ issuer
      → c.aud ≡ audience
      → c.iat ≤ later
      → later < c.exp
      → decode (encode c)
        ≡ claims (record {
          sub = c.sub;
          jti = c.jti;
          iat = c.iat;
          exp = c.exp;
          agent_id = some c.agent_id;
          delegation_id = some c.delegation_id;
          scopes = some c.scopes;
        })

module _ (sv : Service) (out : Outside) (b : TokenIn) where
  -- the decoder on the minted token
  Reads-minted :
      (decode : String → Decoded) (ttl later : ℕ)
      → Reads sv.encode decode sv.settings.jwt_issuer sv.settings.jwt_audience later
      → b.ttl_seconds ≡ pos ttl
      → out.now / second ≤ later
      → later < out.now / second + ttl
      → decode (sv.encode (minted_claims sv out b)) ≡ decoded_as (asked_identity sv out b ttl)
  unfolding delegation_claims
  Reads-minted decode ttl later reads lives issued alive =
      let expires : expiry (out.now / second) b.ttl_seconds ≡ out.now / second + ttl =
        ap (expiry (out.now / second)) lives in
      reads.verified (minted_claims sv out b) refl refl issued (rw expires alive)
      ∙ elim (Option-cases b.scopes) [
        | inl e ↦ rw (e, expires) refl
        | inr (scopes, e) ↦ rw (e, expires) refl
      ]

module _ {V : Type 0} (sv : Service) (out : Outside) (b : TokenIn) where
  mints :
      (h : AdminHeaders) (p : Plane V)
      → keyed sv.settings h ≡ true
      → sv.has_private_key ≡ true
      → (handle sv out h (post_token b) p).0 ≡ ok (token (sv.encode (minted_claims sv out b)))
  unfolding perform issue_token recorded sign_delegation_token
  mints h p k has = rw (handle-keyed sv out h (post_token b) p, k, has) refl

  -- From the control plane to the gateway: a request with the admin key for a token that lives for
  -- `ttl` seconds is answered with a token, which `authenticate` takes, from the second it was issued
  -- until `ttl` seconds later, for the agent, the user, the delegation and the scopes of the body (by
  -- default the payment scope), with the times that follow. This holds where the gateway asks for the
  -- control plane's issuer and audience, for a payment on behalf of what the body names, while the
  -- revocation set can be read and does not hold the delegation, the names of the agent and the
  -- delegation are not empty, and the scopes hold the payment scope.
  pub minted_token_accepted :
      (h : AdminHeaders) (p : Plane V) (py : Strings) (decode : String → Decoded) (ttl later : ℕ)
      (header : Option String) (intent : PaymentIntent) (s : Store V)
      → keyed sv.settings h ≡ true
      → sv.has_private_key ≡ true
      → Reads sv.encode decode sv.settings.jwt_issuer sv.settings.jwt_audience later
      → b.ttl_seconds ≡ pos ttl
      → out.now / second ≤ later
      → later < out.now / second + ttl
      → bearer py header ≡ some (sv.encode (minted_claims sv out b))
      → b.agent_id ≢ ""
      → b.delegation_id ≢ ""
      → IsFor (asked_identity sv out b ttl) intent
      → sismember revocation_set b.delegation_id s ≡ false
      → ((handle sv out h (post_token b) p).0 ≡ ok (token (sv.encode (minted_claims sv out b))))
        × (authenticate py decode true header intent s ≡ ok (asked_identity sv out b ttl))
  minted_token_accepted h p py decode ttl later header intent s k has reads lives issued alive
        presented agent delegation f free =
      (
        mints h p k has,
        authenticate_accepts (asked_identity sv out b ttl) py decode header
            (sv.encode (minted_claims sv out b)) intent s presented
            (Reads-minted sv out b decode ttl later reads lives issued alive) agent delegation f
            free,
      )
