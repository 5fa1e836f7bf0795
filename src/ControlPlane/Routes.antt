-- ===== src/ControlPlane/Routes.antt =====
-- control_plane/routes.py: one function per route, and the door in front of them.
use agent_pay_sentinel.Prelude.{
  ℕ, ◌/◌, min, String, Bool, true, false, ◌||◌, Option, none, some, [], lookup, insert, take, ◌==◌,
  if◌then◌else◌,
}
use agent_pay_sentinel.Admin.{
  AdminHeaders, AdminPrincipal, AdminAction, HttpException, TokenIn, http, record_admin_action,
  require_admin, sign_delegation_token,
}
use agent_pay_sentinel.Clock.{second}
use agent_pay_sentinel.Context.{SpendingPolicy, Merchant, AgentRegistration}
use agent_pay_sentinel.ControlPlane.{
  AgentIn, PolicyIn, MerchantIn, Service, Outside, Plane, done, revoked, token, policy, merchants,
  events, link_code, linked, link_status, whoami, unlinked, was_reset, AdminRequest, put_agent,
  put_policy, put_merchant, post_revoke, get_revoked, post_reinstate, post_token, read_policy,
  get_merchants, get_trail, post_link_code, post_link, get_link_status, get_whoami, delete_link,
  post_reset, Reply, internal_error, unknown_delegation, policy_of, action_on,
}
use agent_pay_sentinel.Json.{end, field, text}
use agent_pay_sentinel.Linking.{
  LinkTables, IssuedCode, Linked, LinkError, issue_code, redeem_code, resolve_user, status_for_user,
  unlink_user,
}
use agent_pay_sentinel.Result.{Result, ok, err}
use agent_pay_sentinel.Store.{Store, revocation_set, sadd, srem, or_empty}

is_production : (String → String) → String → Bool
is_production lower environment = lower environment == "production" || lower environment == "prod"

bound_policy : Option SpendingPolicy → Reply
bound_policy none = unknown_delegation
bound_policy (some row) = ok (policy row)

module _ {V : Type 0} where
  -- the policy's `revoked` column, where there is a policy
  unfoldable pub flag : Bool → String → Option SpendingPolicy → Plane V → Plane V
  flag b delegation_id none p = p
  flag b delegation_id (some row) p = record p {
    tables = record p.tables {
      policies = insert delegation_id (record row { revoked = b }) p.tables.policies;
    };
  }

module _ {V : Type 0} (sv : Service) (out : Outside) (admin : AdminPrincipal) where
  -- the route's last write, and its answer
  unfoldable pub recorded : AdminAction → Reply → Plane V → Reply × Plane V
  recorded a answer p = (
    answer,
    record p {
      trail = record_admin_action sv.sha256 out.trail_up out.trail_gap out.now admin a p.trail;
    },
  )

  unfoldable pub upsert_agent : AgentIn → Plane V → Reply × Plane V
  unfolding recorded
  upsert_agent b p =
      let row : AgentRegistration = record {
        owner_user_id = b.owner_user_id;
        display_name = b.display_name;
        allowed_scopes = b.allowed_scopes;
        allowed_merchant_categories = b.allowed_merchant_categories;
        active = b.active;
      } in
      recorded (action_on "agent.upsert" b.agent_id (sv.agent_dump b)) (ok (done "ok" b.agent_id))
        (record p { tables = record p.tables { agents = insert b.agent_id row p.tables.agents } })

  -- The policy is committed before the store is written.
  unfoldable pub upsert_policy : PolicyIn → Plane V → Reply × Plane V
  unfolding recorded policy_of
  upsert_policy b p =
      let p₁ : Plane V = record p {
        tables = record p.tables {
          policies = insert b.delegation_id (policy_of b) p.tables.policies;
        };
      } in
      if out.store_up
      then recorded (action_on "policy.upsert" b.delegation_id (sv.policy_dump b))
          (ok (done "ok" b.delegation_id))
          (record p₁ { store = srem revocation_set b.delegation_id p₁.store })
      else (internal_error, p₁)

  unfoldable pub upsert_merchant : MerchantIn → Plane V → Reply × Plane V
  unfolding recorded
  upsert_merchant b p =
      let row : Merchant = record {
        display_name = b.display_name;
        verified = b.verified;
        category = b.category;
        risk_score = b.risk_score;
      } in
      recorded (action_on "merchant.upsert" b.merchant_id (sv.merchant_dump b))
        (ok (done "ok" b.merchant_id))
        (record p {
          tables = record p.tables { merchants = insert b.merchant_id row p.tables.merchants };
        })

  unfoldable pub revoke_bound : String → Option SpendingPolicy → Plane V → Reply × Plane V
  unfolding recorded flag
  revoke_bound delegation_id none p = (unknown_delegation, p)
  revoke_bound delegation_id (some row) p =
      let p₁ = flag true delegation_id (some row) p in
      if out.store_up
      then recorded (action_on "delegation.revoke" delegation_id end)
          (ok (done "revoked" delegation_id))
          (record p₁ { store = sadd revocation_set delegation_id p₁.store })
      else (internal_error, p₁)

  unfoldable pub revoke_delegation : String → Plane V → Reply × Plane V
  unfolding revoke_bound
  revoke_delegation delegation_id p =
      revoke_bound delegation_id (lookup delegation_id p.tables.policies) p

  unfoldable pub list_revoked : Plane V → Reply
  list_revoked p =
      if out.store_up
      then ok (revoked (sv.sorted (or_empty (lookup revocation_set p.store.sets))))
      else internal_error

  unfoldable pub reinstate_delegation : String → Plane V → Reply × Plane V
  unfolding recorded flag
  reinstate_delegation delegation_id p =
      let p₁ = flag false delegation_id (lookup delegation_id p.tables.policies) p in
      if out.store_up
      then recorded (action_on "delegation.reinstate" delegation_id end)
          (ok (done "active" delegation_id))
          (record p₁ { store = srem revocation_set delegation_id p₁.store })
      else (internal_error, p₁)

  unfoldable pub issue_token : TokenIn → Plane V → Reply × Plane V
  unfolding recorded
  issue_token b p =
      if sv.has_private_key
      then recorded (action_on "token.mint" b.delegation_id (sv.token_dump b))
          (ok (token (sign_delegation_token sv.encode sv.str sv.settings (out.now / second) b))) p
      else (internal_error, p)

  unfoldable pub get_policy : String → Plane V → Reply
  unfolding bound_policy
  get_policy delegation_id p = bound_policy (lookup delegation_id p.tables.policies)

  unfoldable pub list_merchants : Plane V → Reply
  list_merchants p = ok (merchants p.tables.merchants)

  -- The trail is kept with the newest row first, the order of the query.
  unfoldable pub list_admin_audit : ℕ → Plane V → Reply
  list_admin_audit limit p = ok (events (take (min limit 500) p.trail))

  unfoldable pub code_reply : String → Option IssuedCode × LinkTables → Plane V → Reply × Plane V
  unfolding recorded
  code_reply user_id (none, t) p = (internal_error, p)
  code_reply user_id (some issued, t) p =
      recorded (action_on "telegram.link_code" user_id end) (ok (link_code issued))
        (record p { telegram = t })

  unfoldable pub telegram_link_code : String → Plane V → Reply × Plane V
  unfolding code_reply
  telegram_link_code user_id p =
      code_reply user_id (issue_code out.code out.now user_id p.telegram) p

  unfoldable pub link_reply : Result LinkError Linked × LinkTables → Plane V → Reply × Plane V
  unfolding recorded
  link_reply (err e, t) p = (http e.status e.detail, record p { telegram = t })
  link_reply (ok l, t) p =
      recorded
        (action_on "telegram.link" l.user_id
          (field "telegram_id_masked" (text l.telegram_id_masked) end))
        (ok (linked l)) (record p { telegram = t })

  unfoldable pub telegram_link : String → String → Plane V → Reply × Plane V
  unfolding link_reply
  telegram_link code telegram_id p =
      link_reply (redeem_code sv.methods code telegram_id out.now p.telegram) p

  unfoldable pub telegram_unlink : String → Plane V → Reply × Plane V
  unfolding recorded
  telegram_unlink user_id p =
      let (removed, t) = unlink_user user_id p.telegram in
      recorded (action_on "telegram.unlink" user_id end) (ok (unlinked removed))
        (record p { telegram = t })

  -- gateway/payments.py: `none` is the exception raised in production; else the in-memory store loses
  -- its values and windows, and keeps its sets.
  unfoldable pub reset_replay_state : Store V → Option (Store V)
  unfolding is_production
  reset_replay_state s =
      if is_production sv.lower sv.gateway_environment
      then none
      else some (record s { kv = []; zsets = [] })

  unfoldable pub reset_reply : Option (Store V) → Plane V → Reply × Plane V
  unfolding recorded
  reset_reply none p = (internal_error, p)
  reset_reply (some s) p =
      recorded (action_on "dev.reset" "" end) (ok (was_reset sv.settings.environment))
        (record p { store = s })

  unfoldable pub dev_reset : Plane V → Reply × Plane V
  unfolding is_production reset_replay_state reset_reply
  dev_reset p =
      if is_production sv.lower sv.settings.environment
      then (http 403 "reset is not available in production", p)
      else reset_reply (reset_replay_state p.store) (record p {
        tables = record p.tables { transactions = [] };
        telegram = record { codes = []; links = [] };
        audit_log = [];
      })

  -- the route of a request
  unfoldable pub perform : AdminRequest → Plane V → Reply × Plane V
  perform (put_agent b) p = upsert_agent b p
  perform (put_policy b) p = upsert_policy b p
  perform (put_merchant b) p = upsert_merchant b p
  perform (post_revoke delegation_id) p = revoke_delegation delegation_id p
  perform get_revoked p = (list_revoked p, p)
  perform (post_reinstate delegation_id) p = reinstate_delegation delegation_id p
  perform (post_token b) p = issue_token b p
  perform (read_policy delegation_id) p = (get_policy delegation_id p, p)
  perform get_merchants p = (list_merchants p, p)
  perform (get_trail limit) p = (list_admin_audit limit p, p)
  perform (post_link_code user_id) p = telegram_link_code user_id p
  perform (post_link code telegram_id) p = telegram_link code telegram_id p
  perform (get_link_status user_id) p = (ok (link_status (status_for_user user_id p.telegram)), p)
  perform (get_whoami telegram_id) p =
      (ok (whoami (resolve_user sv.methods telegram_id p.telegram)), p)
  perform (delete_link user_id) p = telegram_unlink user_id p
  perform post_reset p = dev_reset p

module _ {V : Type 0} (sv : Service) where
  unfoldable pub admitted_or_refused :
      Outside → Result HttpException AdminPrincipal → AdminRequest → Plane V → Reply × Plane V
  unfolding perform
  admitted_or_refused out (err e) request p = (err e, p)
  admitted_or_refused out (ok admin) request p = perform sv out admin request p

  -- Every route depends on `require_admin`.
  unfoldable pub handle : Outside → AdminHeaders → AdminRequest → Plane V → Reply × Plane V
  unfolding admitted_or_refused
  handle out headers request p =
      admitted_or_refused out (require_admin sv.settings headers) request p
