-- ===== src/Provider/SingleUse.antt =====
-- mock_provider/main.py: the used tokens over a sequence of calls.
use agent_pay_sentinel.Prelude.{
  ℕ, String, ◌≡◌, refl, Bool, true, Option, none, some, List, [], ◌∷◌, arith, elem, Bool-cases,
  Option-cases, inl, inr,
}
use agent_pay_sentinel.Bearer.{Strings, bearer}
use agent_pay_sentinel.Tokens.{
  Jwt, Decoded, claims, expired_signature, invalid_token, AuthorizationClaims,
  verify_authorization_token,
}
use agent_pay_sentinel.Provider.{
  logged, set_behaviour, Behaviour, success, decline, error, timeout, ChargeRequest, ProviderState,
  mismatches, behave, unless_mismatched, compared, with_claims, with_token, create_charge,
  http_exception,
}

module _ (py : Strings) (j : Jwt) (decimal_eq : String → String → Option Bool) where
  behave-keeps :
      (x : String) (body : ChargeRequest) (jti : String) (now : ℕ) (fresh : String) (b : Behaviour)
      (s : ProviderState)
      → elem x s.consumed_jti ≡ true
      → elem x (behave py j decimal_eq body jti now fresh b s).1.consumed_jti ≡ true
  unfolding behave
  behave-keeps x body jti now fresh timeout s h = h
  behave-keeps x body jti now fresh error s h = h
  behave-keeps x body jti now fresh decline s h = ground arith
  behave-keeps x body jti now fresh success s h = ground arith

  mismatched-keeps :
      (x : String) (body : ChargeRequest) (c : AuthorizationClaims) (now : ℕ) (fresh : String)
      (s : ProviderState) (m : List String)
      → elem x s.consumed_jti ≡ true
      → elem x (unless_mismatched py j decimal_eq body c now fresh s m).1.consumed_jti ≡ true
  unfolding unless_mismatched
  mismatched-keeps x body c now fresh s [] h = behave-keeps x body c.jti now fresh s.behaviour s h
  mismatched-keeps x body c now fresh s (f ∷ fs) h = h

  claims-keeps :
      (x : String) (body : ChargeRequest) (now : ℕ) (fresh : String) (s : ProviderState)
      (dec : Decoded AuthorizationClaims)
      → elem x s.consumed_jti ≡ true
      → elem x (with_claims py j decimal_eq body now fresh s dec).1.consumed_jti ≡ true
  unfolding with_claims compared
  claims-keeps x body now fresh s expired_signature h = h
  claims-keeps x body now fresh s invalid_token h = h
  claims-keeps x body now fresh s (claims c) h = elim (Bool-cases (elem c.jti s.consumed_jti)) [
    | inl u ↦ rw u h
    | inr u ↦ elim (Option-cases (decimal_eq c.amount body.amount)) [
      | inl o ↦ rw (u, o) h
      | inr (b, o) ↦ rw (u, o) (mismatched-keeps x body c now fresh s (mismatches c body b) h)
    ]
  ]

  charge-keeps :
      (x : String) (body : ChargeRequest) (header : Option String) (now : ℕ) (fresh : String)
      (s : ProviderState)
      → elem x s.consumed_jti ≡ true
      → elem x (create_charge py j decimal_eq body header now fresh s).1.consumed_jti ≡ true
  unfolding create_charge with_token
  charge-keeps x body header now fresh s h = elim (Option-cases (bearer py header)) [
    | inl e ↦ rw e h
    | inr (t, e) ↦ rw e (claims-keeps x body now fresh (logged py j decimal_eq body now s) _ h)
  ]

  -- The provider between two resets: charges and changes of its behaviour.
  pub data Calls : ProviderState → ProviderState → Type 0 where
    none_yet : {s : ProviderState} → Calls s s
    and_charge :
        {s t : ProviderState} (body : ChargeRequest) (header : Option String) (now : ℕ)
        (fresh : String)
        → Calls s t
        → Calls s (create_charge py j decimal_eq body header now fresh t).1
    and_behaviour :
        {s t : ProviderState} (b : Behaviour) (delay : Option ℕ)
        → Calls s t
        → Calls s (set_behaviour b delay t)

  Calls-keeps :
      (x : String) {s t : ProviderState}
      → Calls s t
      → elem x s.consumed_jti ≡ true
      → elem x t.consumed_jti ≡ true
  unfolding set_behaviour
  Calls-keeps x none_yet h = h
  Calls-keeps x (and_charge body header now fresh k) h =
      charge-keeps x body header now fresh _ (Calls-keeps x k h)
  Calls-keeps x (and_behaviour b none k) h = Calls-keeps x k h
  Calls-keeps x (and_behaviour b (some delay) k) h = Calls-keeps x k h

  -- A token whose `jti` is consumed is refused with 409 from then on, until a reset, whatever charges
  -- and changes of behaviour come between, and the record of charges stays as it is.
  pub used_token_refused :
      (c : AuthorizationClaims) (s t : ProviderState) (body : ChargeRequest) (token : String)
      (header : Option String) (now : ℕ) (fresh : String)
      → elem c.jti s.consumed_jti ≡ true
      → Calls s t
      → bearer py header ≡ some token
      → verify_authorization_token j now token ≡ claims c
      → let m = create_charge py j decimal_eq body header now fresh t in
        (m.0 ≡ http_exception 409 "authorization token already used") × (m.1.charges ≡ t.charges)
  unfolding create_charge with_token with_claims
  used_token_refused c s t body token header now fresh u k p v =
      rw (p, v, Calls-keeps c.jti k u) (refl, refl)
