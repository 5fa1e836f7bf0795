-- ===== src/Samples/Control.antt =====
-- The theorems about the control plane at sample requests.
use agent_pay_sentinel.Bearer.{bearer}
use agent_pay_sentinel.Prelude.{
  ℕ, String, ◌<>◌, ◌&&◌, ◌==◌, leb, ltb, if◌then◌else◌, eq_iff, arith, ◌≡◌, refl, ◌≢◌, true, none,
  some, [], ◌∷◌, ne_of_eq-false, lookup,
}
use agent_pay_sentinel.Admin.{
  DelegationClaims, AdminHeaders, TokenIn, is_ascii, require_admin, delegation_claims,
}
use agent_pay_sentinel.ControlPlane.{
  Service, Outside, Plane, done, post_revoke, get_revoked, post_token, token,
}
use agent_pay_sentinel.ControlPlane.Minting.{
  minted_claims, asked_identity, Reads, minted_token_accepted,
}
use agent_pay_sentinel.ControlPlane.Revocation.{
  AdminCall, replay, serve, serve_refines, admin_request, none_yet, revoked_stays_refused,
}
use agent_pay_sentinel.ControlPlane.Routes.{handle, revoke_delegation}
use agent_pay_sentinel.ControlPlane.Standing.{is_withdrawn, standing}
use agent_pay_sentinel.ControlPlane.Trail.{Attributed, answered-Attributed}
use agent_pay_sentinel.Identity.{Decoded, claims, invalid_token, authenticate}
use agent_pay_sentinel.Identity.Accepting.{decoded_as}
use agent_pay_sentinel.Json.{end}
use agent_pay_sentinel.Money.{pos}
use agent_pay_sentinel.Result.{ok}
use agent_pay_sentinel.Samples.{strings, intent, identity, empty_store, tables}
use agent_pay_sentinel.Samples.Codec.{
  size, join, put_all, length_of, put_nat, get_nat, get-put_nat, put_text, get_text, get-put_text,
  put_texts, get_texts, get-put_texts,
}
use agent_pay_sentinel.Store.{revocation_set, sismember}
use agent_pay_sentinel.Values.{Value}

abbrev service : Service
service = record {
  settings = record {
    admin_api_key = "key";
    jwt_issuer = "issuer";
    jwt_audience = "audience";
    environment = "dev";
  };
  gateway_environment = "dev";
  methods = record { strip = λ s. s; upper = λ s. s };
  lower = λ s. s;
  sorted = λ l. l;
  sha256 = λ f. "digest";
  str = λ n. "1";
  encode = λ c. "signed";
  has_private_key = true;
  agent_dump = λ b. end;
  policy_dump = λ b. end;
  merchant_dump = λ b. end;
  token_dump = λ b. end;
}

abbrev out : Outside
out = record { now = 0; code = "LINK-AAAAAA"; trail_up = true; trail_gap = 0; store_up = true }

abbrev headers : AdminHeaders
headers = record { x_admin_key = some "key"; x_admin_id = some "ops" }

abbrev plane : Plane Value
plane = record {
  tables = tables;
  store = empty_store;
  telegram = record { codes = []; links = [] };
  trail = [];
  audit_log = [];
}

abbrev revoking : AdminCall
revoking = record { out = out; headers = headers; request = post_revoke "d" }

abbrev listing : AdminCall
listing = record { out = out; headers = headers; request = get_revoked }

abbrev body : TokenIn
body = record {
  agent_id = "a";
  user_id = "u";
  delegation_id = "d";
  scopes = none;
  ttl_seconds = pos 3600;
}

serve_refines_example :
    let p = serve service (revoking ∷ listing ∷ []) plane in
    let s = replay service.settings "d" (revoking ∷ listing ∷ []) (standing "d" plane) in
    (standing "d" p ≡ s) × (sismember revocation_set "d" p.store ≡ is_withdrawn s)
unfolding standing sismember lookup
serve_refines_example =
    serve_refines service (revoking ∷ listing ∷ []) "d" plane (refl, (refl, tt)) refl

revoked_stays_refused_example :
    let p = (handle service out headers (post_revoke "d") plane).1 in
    let q = (handle service out headers get_revoked p).1 in
    authenticate strings (λ t. decoded_as identity) true (some "bearer t") intent q.store
    ≢ ok identity
unfolding handle require_admin revoke_delegation lookup is_ascii
revoked_stays_refused_example =
    let p = (handle service out headers (post_revoke "d") plane).1 in
    revoked_stays_refused service out headers "d" plane (handle service out headers get_revoked p).1
      (done "revoked" "d") strings (λ t. decoded_as identity) true (some "bearer t") intent identity
      refl (admin_request listing refl none_yet) refl

-- A token holds the claims, and is read while they name the issuer and the audience asked for and are
-- alive.
abbrev signed : DelegationClaims → String
signed c = put_text c.iss (
    put_text c.aud (
      put_text c.sub (
        put_text c.agent_id (
          put_text c.delegation_id
            (put_texts c.scopes (put_nat c.iat (put_nat c.exp (put_text c.jti ""))))))))

abbrev reading : String → String → ℕ → String → Decoded
reading issuer audience later s =
    let (iss, r₁) = get_text s in
    let (aud, r₂) = get_text r₁ in
    let (sub, r₃) = get_text r₂ in
    let (agent_id, r₄) = get_text r₃ in
    let (delegation_id, r₅) = get_text r₄ in
    let (scopes, r₆) = get_texts r₅ in
    let (iat, r₇) = get_nat r₆ in
    let (exp, r₈) = get_nat r₇ in
    let (jti, r₉) = get_text r₈ in
    if iss == issuer && aud == audience && leb iat later && ltb later exp
    then claims (record {
      sub = sub;
      jti = jti;
      iat = iat;
      exp = exp;
      agent_id = some agent_id;
      delegation_id = some delegation_id;
      scopes = some scopes;
    })
    else invalid_token "rejected"

reads :
    (issuer audience : String) (later : ℕ)
    → Reads signed (reading issuer audience later) issuer audience later
reads issuer audience later = record {
  verified = λ c iss aud issued alive.
      rw
        (
          get-put_text c.iss _,
          get-put_text c.aud _,
          get-put_text c.sub _,
          get-put_text c.agent_id _,
          get-put_text c.delegation_id _,
          get-put_texts c.scopes _,
          get-put_nat c.iat _,
          get-put_nat c.exp _,
          get-put_text c.jti _,
        )
        (ground (arith, iss, aud, issued, alive, eq_iff c.iss issuer, eq_iff c.aud audience));
}

abbrev minting : Service
minting = record service { encode = signed }

abbrev presented : String
presented = "bearer " <> signed (minted_claims minting out body)

minted_token_accepted_example :
    ((handle minting out headers (post_token body) plane).0
      ≡ ok (token (signed (minted_claims minting out body))))
    × (authenticate strings
          (reading "issuer" "audience" 3599)
          true
          (some presented)
          intent
          empty_store
        ≡ ok (asked_identity minting out body 3600))
unfolding bearer delegation_claims sismember lookup is_ascii put_text put_texts put_nat size join
    put_all length_of
minted_token_accepted_example =
    minted_token_accepted minting out body headers plane strings (reading "issuer" "audience" 3599)
      3600 3599 (some presented) intent empty_store refl refl (reads "issuer" "audience" 3599) refl
      (omega arith) (omega arith) refl (ne_of_eq-false "a" "" refl) (ne_of_eq-false "d" "" refl)
      (record { agent = refl; user = refl; delegation = refl; scope = refl }) refl

answered-Attributed_example :
    Attributed [] headers "delegation.revoke"
      (handle service out headers (post_revoke "d") plane).1.trail
unfolding handle require_admin revoke_delegation lookup is_ascii
answered-Attributed_example =
    answered-Attributed service out headers (post_revoke "d") "delegation.revoke" plane
      (done "revoked" "d") refl refl refl
