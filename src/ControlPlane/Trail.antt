-- ===== src/ControlPlane/Trail.antt =====
-- control_plane/audit.py under the routes of control_plane/routes.py: who did what.
use agent_pay_sentinel.Prelude.{
  String, ◌≡◌, ◌≤◌, ◌+◌, refl, Bool, true, false, Option, none, some, List, ◌∷◌, arith, lookup,
  if◌then◌else◌, Bool-cases, inl, inr, ap,
}
use agent_pay_sentinel.Admin.{
  AdminHeaders, AdminPrincipal, AdminAction, AdminAuditEvent, record_admin_action, next_seq,
}
use agent_pay_sentinel.Context.{SpendingPolicy}
use agent_pay_sentinel.ControlPlane.{
  Service, Outside, Plane, AdminRequest, Answer, put_agent, put_policy, put_merchant, post_revoke,
  get_revoked, post_reinstate, post_token, read_policy, get_merchants, get_trail, post_link_code,
  post_link, get_link_status, get_whoami, delete_link, post_reset, action_on, Reply,
}
use agent_pay_sentinel.ControlPlane.Door.{keyed, acting, handle-keyed}
use agent_pay_sentinel.ControlPlane.Routes.{
  recorded, flag, revoke_bound, code_reply, link_reply, reset_reply, reset_replay_state, perform,
  handle, upsert_agent, upsert_merchant, upsert_policy, revoke_delegation, reinstate_delegation,
  issue_token, telegram_link_code, telegram_link, telegram_unlink, dev_reset,
}
use agent_pay_sentinel.Json.{end, field, text}
use agent_pay_sentinel.Linking.{LinkTables, IssuedCode, Linked, LinkError, issue_code, redeem_code}
use agent_pay_sentinel.Slices.{prefix}
use agent_pay_sentinel.Result.{Result, ok, err}

-- The name under which a request that changes something is to be found in the trail.
abbrev pub action_of : AdminRequest → Option String
action_of (put_agent b) = some "agent.upsert"
action_of (put_policy b) = some "policy.upsert"
action_of (put_merchant b) = some "merchant.upsert"
action_of (post_revoke d) = some "delegation.revoke"
action_of (post_reinstate d) = some "delegation.reinstate"
action_of (post_token b) = some "token.mint"
action_of (post_link_code u) = some "telegram.link_code"
action_of (post_link c t) = some "telegram.link"
action_of (delete_link u) = some "telegram.unlink"
action_of post_reset = some "dev.reset"
action_of _ = none

is_ok : Reply → Bool
is_ok (err e) = false
is_ok (ok a) = true

module _ {V : Type 0} (sv : Service) (out : Outside) (admin : AdminPrincipal) where
  -- A route that writes the trail does so under one action, and only where it answers.
  Trails : String → List AdminAuditEvent → Reply × Plane V → Type 0
  Trails name before (reply, after) =
      (a : AdminAction) × (a.action ≡ name)
      × (after.trail ≡ (
          if is_ok reply
          then record_admin_action sv.sha256 out.trail_up out.trail_gap out.now admin a before
          else before))

  trail-flag :
      (b : Bool) (d : String) (o : Option SpendingPolicy) (p : Plane V)
      → (flag b d o p).trail ≡ p.trail
  unfolding flag
  trail-flag b d none p = refl
  trail-flag b d (some row) p = refl

  revoke_bound-Trails :
      (d : String) (o : Option SpendingPolicy) (p : Plane V)
      → Trails "delegation.revoke" p.trail (revoke_bound sv out admin d o p)
  unfolding Trails is_ok revoke_bound recorded flag
  revoke_bound-Trails d none p = (action_on "delegation.revoke" d end, refl, refl)
  revoke_bound-Trails d (some row) p = (action_on "delegation.revoke" d end, refl, ground arith)

  reinstate-Trails :
      (d : String) (p : Plane V)
      → Trails "delegation.reinstate" p.trail (reinstate_delegation sv out admin d p)
  unfolding Trails is_ok reinstate_delegation recorded
  reinstate-Trails d p = (
    action_on "delegation.reinstate" d end,
    refl,
    ground (arith, trail-flag false d (lookup d p.tables.policies) p),
  )

  code_reply-Trails :
      (u : String) (c : Option IssuedCode × LinkTables) (p : Plane V)
      → Trails "telegram.link_code" p.trail (code_reply sv out admin u c p)
  unfolding Trails is_ok code_reply recorded
  code_reply-Trails u (none, t) p = (action_on "telegram.link_code" u end, refl, refl)
  code_reply-Trails u (some i, t) p = (action_on "telegram.link_code" u end, refl, refl)

  link_reply-Trails :
      (c : Result LinkError Linked × LinkTables) (p : Plane V)
      → Trails "telegram.link" p.trail (link_reply sv out admin c p)
  unfolding Trails is_ok link_reply recorded
  link_reply-Trails (err e, t) p = (action_on "telegram.link" "" end, refl, refl)
  link_reply-Trails (ok l, t) p = (
    action_on "telegram.link" l.user_id
        (field "telegram_id_masked" (text l.telegram_id_masked) end),
    refl,
    refl,
  )

  reset-Trails : (p : Plane V) → Trails "dev.reset" p.trail (dev_reset sv out admin p)
  unfolding Trails is_ok dev_reset reset_reply reset_replay_state recorded
  reset-Trails p = (action_on "dev.reset" "" end, refl, ground arith)

  Expected : Option String → List AdminAuditEvent → Reply × Plane V → Type 0
  Expected none before (reply, after) = after.trail ≡ before
  Expected (some name) before r = Trails name before r

  perform-Expected :
      (r : AdminRequest) (p : Plane V) → Expected (action_of r) p.trail (perform sv out admin r p)
  unfolding Expected Trails is_ok perform upsert_agent upsert_merchant upsert_policy
      revoke_delegation issue_token telegram_link_code telegram_link telegram_unlink recorded
  perform-Expected (put_agent b) p =
      (action_on "agent.upsert" b.agent_id (sv.agent_dump b), refl, refl)
  perform-Expected (put_policy b) p =
      (action_on "policy.upsert" b.delegation_id (sv.policy_dump b), refl, ground arith)
  perform-Expected (put_merchant b) p =
      (action_on "merchant.upsert" b.merchant_id (sv.merchant_dump b), refl, refl)
  perform-Expected (post_revoke d) p = revoke_bound-Trails d (lookup d p.tables.policies) p
  perform-Expected get_revoked p = refl
  perform-Expected (post_reinstate d) p = reinstate-Trails d p
  perform-Expected (post_token b) p =
      (action_on "token.mint" b.delegation_id (sv.token_dump b), refl, ground arith)
  perform-Expected (read_policy d) p = refl
  perform-Expected get_merchants p = refl
  perform-Expected (get_trail n) p = refl
  perform-Expected (post_link_code u) p =
      code_reply-Trails u (issue_code out.code out.now u p.telegram) p
  perform-Expected (post_link c t) p =
      link_reply-Trails (redeem_code sv.methods c t out.now p.telegram) p
  perform-Expected (get_link_status u) p = refl
  perform-Expected (get_whoami t) p = refl
  perform-Expected (delete_link u) p = (action_on "telegram.unlink" u end, refl, refl)
  perform-Expected post_reset p = reset-Trails p

-- The row that one call adds to the trail: a later number, the caller's name and the action.
pub record Attributed (before : List AdminAuditEvent) (h : AdminHeaders) (name : String)
    (after : List AdminAuditEvent) : Type 0 where
  pub event : AdminAuditEvent
  pub appended : after ≡ event ∷ before
  pub numbered : next_seq before ≤ event.seq
  pub by : event.admin_id ≡ (acting h).admin_id
  pub named : event.action ≡ name

module _ {V : Type 0} (sv : Service) (out : Outside) (h : AdminHeaders) where
  performed :
      (r : AdminRequest) (p : Plane V) (a : Answer)
      → (handle sv out h r p).0 ≡ ok a
      → handle sv out h r p ≡ perform sv out (acting h) r p
  performed r p a e =
      let d = handle-keyed sv out h r p in
      elim (Bool-cases (keyed sv.settings h)) [
        | inl k ↦ rw k at d
        | inr k ↦ let d' = rw k at d in cc (ap (λ x. x.0) d', e)
      ]

  attribute :
      (o : Option String) (name : String) (before : List AdminAuditEvent) (reply : Reply)
      (after : Plane V) (a : Answer)
      → Expected sv out (acting h) o before (reply, after)
      → o ≡ some name
      → reply ≡ ok a
      → out.trail_up ≡ true
      → Attributed before h name after.trail
  unfolding Expected Trails is_ok record_admin_action
  attribute none name before reply after a t e answered up = cc
  attribute (some n) name before (err x) after a t e answered up = cc
  attribute (some n) name before (ok x) after a (act, named, t) e answered up = record {
    event = record {
      seq = next_seq before + out.trail_gap;
      at = out.now;
      admin_id = (acting h).admin_id;
      action = act.action;
      target = act.target;
      payload_sha256 = sv.sha256 act.payload;
      detail = prefix 2000 act.detail;
    };
    appended = ground arith;
    numbered = omega arith;
    by = refl;
    named = cc;
  }

  -- Every request that changes something and is answered adds exactly one row to the trail, while
  -- the trail can be written: the row has a later number, the name that the caller gave and the
  -- name of the action.
  pub answered-Attributed :
      (r : AdminRequest) (name : String) (p : Plane V) (a : Answer)
      → (handle sv out h r p).0 ≡ ok a
      → action_of r ≡ some name
      → out.trail_up ≡ true
      → Attributed p.trail h name (handle sv out h r p).1.trail
  answered-Attributed r name p a e named up =
      let same = performed r p a e in
      rw same (
        attribute (action_of r) name p.trail (perform sv out (acting h) r p).0
          (perform sv out (acting h) r p).1 a (perform-Expected sv out (acting h) r p) named
          (rw same at e) up)
