-- ===== src/Admin.antt =====
-- What every route of the control plane stands on: the admin key of control_plane/auth.py, the trail
-- of control_plane/audit.py and the minting of control_plane/keys.py. SHA-256 of
-- the JSON of a payload, the encoding of a JWT and `str` of a number are arguments.
use Prim.Native.Char.{code}
use agent_pay_sentinel.Prelude.{
  ltb, true, ℕ, suc, ◌+◌, ◌-◌, String, ◌<>◌, Bool, false, ◌&&◌, Option, none, some, List, [], ◌∷◌,
  ◌==◌, if◌then◌else◌,
}
use agent_pay_sentinel.Json.{Fields}
use agent_pay_sentinel.Identity.{required_scope}
use agent_pay_sentinel.Money.{ℤ, pos, negsuc}
use agent_pay_sentinel.Result.{Result, ok, err}
use agent_pay_sentinel.Slices.{prefix}

pub record HttpException : Type 0 where
  pub status_code : ℕ
  pub detail : String

-- The headers X-Admin-Key and X-Admin-Id.
pub record AdminHeaders : Type 0 where
  pub x_admin_key : Option String
  pub x_admin_id : Option String

pub record AdminPrincipal : Type 0 where
  pub admin_id : String

-- control_plane/config.py, as far as it is read
pub record AdminSettings : Type 0 where
  pub admin_api_key : String
  pub jwt_issuer : String
  pub jwt_audience : String
  pub environment : String

abbrev pub http : {A : Type 0} → ℕ → String → Result HttpException A
http status_code detail = err (record { status_code = status_code; detail = detail })

-- `value or default`, for a text that may be missing
abbrev pub or_else : Option String → String → String
or_else none default = default
or_else (some s) default = if s == "" then default else s

unfoldable pub is_ascii : String → Bool
is_ascii String.[] = true
is_ascii (String.◌∷◌ c s) = let rest = is_ascii s in ltb (code c) 128 && rest

-- `hmac.compare_digest`; `none` is its `TypeError` on a text that is not ASCII
unfoldable pub compare_digest : String → String → Option Bool
compare_digest a b = if is_ascii a && is_ascii b then some (a == b) else none

-- An exception that no handler takes is answered with 500.
admit : AdminHeaders → Option Bool → Result HttpException AdminPrincipal
admit h none = http 500 "Internal Server Error"
admit h (some true) = ok (record { admin_id = prefix 128 (or_else h.x_admin_id "unknown") })
admit h (some false) = http 401 "missing or invalid X-Admin-Key"

-- `not x_admin_key or not hmac.compare_digest(...)`; the expected key is not empty
compared : Option String → String → Option Bool
unfolding compare_digest
compared none expected = some false
compared (some key) expected = if key == "" then some false else compare_digest key expected

unfoldable pub require_admin : AdminSettings → AdminHeaders → Result HttpException AdminPrincipal
unfolding admit compared
require_admin settings h =
    if settings.admin_api_key == ""
    then http 503 "control plane has no ADMIN_API_KEY configured"
    else admit h (compared h.x_admin_key settings.admin_api_key)

-- A row of `admin_audit_events`; the table is the list of its rows, the newest first.
pub record AdminAuditEvent : Type 0 where
  pub seq : ℕ
  pub at : ℕ
  pub admin_id : String
  pub action : String
  pub target : String
  pub payload_sha256 : String
  pub detail : String

-- The arguments of `record_admin_action` after the admin's id; a payload left out is empty.
pub record AdminAction : Type 0 where
  pub action : String
  pub target : String
  pub payload : Fields
  pub detail : String

abbrev pub next_seq : List AdminAuditEvent → ℕ
next_seq [] = 1
next_seq (e ∷ es) = suc e.seq

-- `sha256` is the digest of the JSON text with sorted keys; `accepted` is whether the database takes
-- the row: a failure is logged and changes nothing. `gap` is how many numbers its sequence skips.
unfoldable pub record_admin_action :
    (Fields → String)
    → Bool
    → ℕ
    → ℕ
    → AdminPrincipal
    → AdminAction
    → List AdminAuditEvent
    → List AdminAuditEvent
record_admin_action sha256 accepted gap now admin a events =
    if accepted
    then (record {
      seq = next_seq events + gap;
      at = now;
      admin_id = admin.admin_id;
      action = a.action;
      target = a.target;
      payload_sha256 = sha256 a.payload;
      detail = prefix 2000 a.detail;
    })
      ∷ events
    else events

-- The claims of a delegation token. Times are whole seconds.
pub record DelegationClaims : Type 0 where
  pub iss : String
  pub aud : String
  pub sub : String
  pub agent_id : String
  pub delegation_id : String
  pub scopes : List String
  pub iat : ℕ
  pub exp : ℕ
  pub jti : String

-- `now + ttl_seconds`; a time before the epoch is the epoch.
abbrev pub expiry : ℕ → ℤ → ℕ
expiry now (pos ttl) = now + ttl
expiry now (negsuc n) = now - suc n

abbrev pub scopes_or_default : Option (List String) → List String
scopes_or_default none = required_scope ∷ []
scopes_or_default (some scopes) = scopes

-- The body of `POST /tokens`.
pub record TokenIn : Type 0 where
  pub agent_id : String
  pub user_id : String
  pub delegation_id : String
  pub scopes : Option (List String)
  pub ttl_seconds : ℤ

unfoldable pub delegation_claims : (ℕ → String) → AdminSettings → ℕ → TokenIn → DelegationClaims
delegation_claims str settings now t = record {
  iss = settings.jwt_issuer;
  aud = settings.jwt_audience;
  sub = t.user_id;
  agent_id = t.agent_id;
  delegation_id = t.delegation_id;
  scopes = scopes_or_default t.scopes;
  iat = now;
  exp = expiry now t.ttl_seconds;
  jti = "jti_" <> str now <> "_" <> t.delegation_id;
}

unfoldable pub sign_delegation_token :
    (DelegationClaims → String) → (ℕ → String) → AdminSettings → ℕ → TokenIn → String
unfolding delegation_claims
sign_delegation_token encode str settings now t = encode (delegation_claims str settings now t)
