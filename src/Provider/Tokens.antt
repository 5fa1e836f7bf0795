-- ===== src/Provider/Tokens.antt =====
-- mock_provider/main.py: the charges on record.
use agent_pay_sentinel.Prelude.{
  ℕ, String, ◌≡◌, refl, ap, ◌≢◌, Bool, true, false, Option, none, some, List, [], ◌∷◌, arith, elem,
  eq_iff, Bool-cases, inl, inr,
}
use agent_pay_sentinel.Bearer.{Strings, bearer}
use agent_pay_sentinel.Tokens.{
  Jwt, Decoded, claims, expired_signature, invalid_token, AuthorizationClaims,
  verify_authorization_token,
}
use agent_pay_sentinel.Provider.{
  logged, Behaviour, success, decline, error, timeout, ChargeRequest, ProviderState, mismatches,
  behave, unless_mismatched, compared, with_claims, with_token, create_charge,
}

module _ (py : Strings) (j : Jwt) (decimal_eq : String → String → Option Bool) where
  -- Everything that a charge on record has passed.
  pub record Authorised (body : ChargeRequest) (header : Option String) (now : ℕ)
      (s t : ProviderState) : Type 0 where
    pub token : String
    pub c : AuthorizationClaims
    pub presented : bearer py header ≡ some token
    pub verified : verify_authorization_token j now token ≡ claims c
    pub unused : elem c.jti s.consumed_jti ≡ false
    pub merchant : c.merchant_id ≡ body.merchant_id
    pub currency : c.currency ≡ body.currency
    pub cart : c.cart_hash ≡ body.cart_hash
    pub authorization : c.payment_authorization_id ≡ body.payment_authorization_id
    pub amount : decimal_eq c.amount body.amount ≡ some true
    pub consumed : t.consumed_jti ≡ c.jti ∷ s.consumed_jti

  matched :
      (c : AuthorizationClaims) (body : ChargeRequest) (same : Bool)
      → mismatches c body same ≡ []
      → (c.merchant_id ≡ body.merchant_id)
        × (c.currency ≡ body.currency)
        × (c.cart_hash ≡ body.cart_hash)
        × (c.payment_authorization_id ≡ body.payment_authorization_id)
        × (same ≡ true)
  unfolding mismatches
  matched c body same h = ground (
    arith,
    eq_iff c.merchant_id body.merchant_id,
    eq_iff c.currency body.currency,
    eq_iff c.cart_hash body.cart_hash,
    eq_iff c.payment_authorization_id body.payment_authorization_id,
  )

  behave-consumed :
      (body : ChargeRequest) (jti : String) (now : ℕ) (fresh : String) (b : Behaviour)
      (s : ProviderState)
      → (behave py j decimal_eq body jti now fresh b s).1.charges ≢ s.charges
      → (behave py j decimal_eq body jti now fresh b s).1.consumed_jti ≡ jti ∷ s.consumed_jti
  unfolding behave
  behave-consumed body jti now fresh timeout s h = absurd (h refl)
  behave-consumed body jti now fresh error s h = absurd (h refl)
  behave-consumed body jti now fresh decline s h = refl
  behave-consumed body jti now fresh success s h = refl

  through_mismatches :
      (body : ChargeRequest) (c : AuthorizationClaims) (now : ℕ) (fresh : String)
      (s : ProviderState) (m : List String)
      → (unless_mismatched py j decimal_eq body c now fresh s m).1.charges ≢ s.charges
      → (m ≡ [])
        × ((unless_mismatched py j decimal_eq body c now fresh s m).1.consumed_jti
            ≡ c.jti ∷ s.consumed_jti)
  unfolding unless_mismatched
  through_mismatches body c now fresh s [] h =
      (refl, behave-consumed body c.jti now fresh s.behaviour s h)
  through_mismatches body c now fresh s (f ∷ fs) h = absurd (h refl)

  through_comparison :
      (body : ChargeRequest) (c : AuthorizationClaims) (now : ℕ) (fresh : String)
      (s : ProviderState) (o : Option Bool)
      → (compared py j decimal_eq body c now fresh s o).1.charges ≢ s.charges
      → (o ≡ some true)
        × (c.merchant_id ≡ body.merchant_id)
        × (c.currency ≡ body.currency)
        × (c.cart_hash ≡ body.cart_hash)
        × (c.payment_authorization_id ≡ body.payment_authorization_id)
        × ((compared py j decimal_eq body c now fresh s o).1.consumed_jti ≡ c.jti ∷ s.consumed_jti)
  unfolding compared
  through_comparison body c now fresh s none h = absurd (h refl)
  through_comparison body c now fresh s (some b) h =
      let (e, k) = through_mismatches body c now fresh s (mismatches c body b) h in
      let (m, u, v, a, q) = matched c body b e in (ap some q, m, u, v, a, k)

  through_claims :
      (body : ChargeRequest) (header : Option String) (token : String) (now : ℕ) (fresh : String)
      (s : ProviderState) (dec : Decoded AuthorizationClaims)
      → bearer py header ≡ some token
      → verify_authorization_token j now token ≡ dec
      → (with_claims py j decimal_eq body now fresh s dec).1.charges ≢ s.charges
      → Authorised body header now s (with_claims py j decimal_eq body now fresh s dec).1
  unfolding with_claims
  through_claims body header token now fresh s expired_signature p v h = absurd (h refl)
  through_claims body header token now fresh s invalid_token p v h = absurd (h refl)
  through_claims body header token now fresh s (claims c) p v h =
      elim (Bool-cases (elem c.jti s.consumed_jti)) [
        | inl u ↦ absurd (rw u at h refl)
        | inr u ↦
            let (o, m, cu, ca, a, k) =
              through_comparison body c now fresh s (decimal_eq c.amount body.amount) (rw u at h) in
            rw u (record {
              token = token;
              c = c;
              presented = p;
              verified = v;
              unused = u;
              merchant = m;
              currency = cu;
              cart = ca;
              authorization = a;
              amount = o;
              consumed = k;
            })
      ]

  through_token :
      (body : ChargeRequest) (header : Option String) (now : ℕ) (fresh : String) (s : ProviderState)
      (t : Option String)
      → bearer py header ≡ t
      → (with_token py j decimal_eq body now fresh s t).1.charges ≢ s.charges
      → Authorised body header now s (with_token py j decimal_eq body now fresh s t).1
  unfolding with_token
  through_token body header now fresh s none p h = absurd (h refl)
  through_token body header now fresh s (some token) p h =
      through_claims body header token now fresh s _ p refl h

  -- The provider's record of charges changes only for a bearer token that verifies, that was not used
  -- before, and whose claims agree with the merchant, the currency, the cart, the authorization and
  -- the amount of the charge; the token is used from then on.
  pub charge-Authorised :
      (body : ChargeRequest) (header : Option String) (now : ℕ) (fresh : String) (s : ProviderState)
      → (create_charge py j decimal_eq body header now fresh s).1.charges ≢ s.charges
      → Authorised body header now s (create_charge py j decimal_eq body header now fresh s).1
  unfolding create_charge
  charge-Authorised body header now fresh s h =
      let a = through_token body header now fresh (logged py j decimal_eq body now s) _ refl h in
      record {
        token = a.token;
        c = a.c;
        presented = a.presented;
        verified = a.verified;
        unused = a.unused;
        merchant = a.merchant;
        currency = a.currency;
        cart = a.cart;
        authorization = a.authorization;
        amount = a.amount;
        consumed = a.consumed;
      }
