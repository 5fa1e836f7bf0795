-- ===== src/ControlPlane/Door.antt =====
-- control_plane/auth.py in front of the routes of control_plane/routes.py.
use agent_pay_sentinel.Prelude.{
  ◌≡◌, refl, Bool, false, not, ◌&&◌, none, some, ap, arith, eq_iff, ◌==◌, if◌then◌else◌, Bool-cases,
  Option-cases, inl, inr,
}
use agent_pay_sentinel.Admin.{
  AdminSettings, AdminHeaders, AdminPrincipal, HttpException, require_admin, or_else, is_ascii,
  compare_digest,
}
use agent_pay_sentinel.ControlPlane.{Service, Outside, Plane, AdminRequest}
use agent_pay_sentinel.ControlPlane.Routes.{perform, handle}
use agent_pay_sentinel.Slices.{prefix}
use agent_pay_sentinel.Result.{ok, err}

-- The caller holds the admin key, and there is one, which is ASCII.
abbrev pub keyed : AdminSettings → AdminHeaders → Bool
keyed settings h = elim h.x_admin_key [
  | none ↦ false
  | some key ↦ not (settings.admin_api_key == "") && (key == settings.admin_api_key && is_ascii key)
]

abbrev pub acting : AdminHeaders → AdminPrincipal
acting h = record { admin_id = prefix 128 (or_else h.x_admin_id "unknown") }

-- A key is presented, and it or the one expected is not ASCII.
abbrev uncomparable : AdminSettings → AdminHeaders → Bool
uncomparable settings h = elim h.x_admin_key [
  | none ↦ false
  | some key ↦ not (key == "") && not (is_ascii key && is_ascii settings.admin_api_key)
]

abbrev pub refusal : AdminSettings → AdminHeaders → HttpException
refusal settings h =
    if settings.admin_api_key == ""
    then record { status_code = 503; detail = "control plane has no ADMIN_API_KEY configured" }
    else if uncomparable settings h
    then record { status_code = 500; detail = "Internal Server Error" }
    else record { status_code = 401; detail = "missing or invalid X-Admin-Key" }

-- `require_admin` lets through exactly the callers with the key, under the name that they give.
pub require_admin-keyed :
    (settings : AdminSettings) (h : AdminHeaders)
    → require_admin settings h
      ≡ (if keyed settings h then ok (acting h) else err (refusal settings h))
unfolding require_admin compare_digest
require_admin-keyed settings h = elim (Option-cases h.x_admin_key) [
  | inl e ↦ rw e (ground arith)
  | inr (key, e) ↦ rw e (
      ground (
        arith,
        eq_iff key settings.admin_api_key,
        eq_iff key "",
        eq_iff settings.admin_api_key "",
        λ (same : key ≡ settings.admin_api_key). ap is_ascii same,
      ))
]

-- A request with the admin key is performed in the name of its X-Admin-Id. Any other request is
-- refused and the whole state is as before: with 503 where no key is configured, with 500 where the
-- keys cannot be compared since one is not ASCII, and with 401 otherwise.
pub handle-keyed :
    {V : Type 0} (sv : Service) (out : Outside) (h : AdminHeaders) (r : AdminRequest) (p : Plane V)
    → handle sv out h r p ≡ (
        if keyed sv.settings h
        then perform sv out (acting h) r p
        else (err (refusal sv.settings h), p))
unfolding handle
handle-keyed sv out h r p =
    rw (require_admin-keyed sv.settings h)
      (elim (Bool-cases (keyed sv.settings h)) [ inl e ↦ rw e refl | inr e ↦ rw e refl ])
