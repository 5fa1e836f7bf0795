-- ===== src/ControlPlane.antt =====
-- The control plane of control_plane/routes.py: its request bodies, its state (the registry's tables,
-- the shared store, the admin trail and the Telegram links) and its answers. Pydantic's dumps of a
-- body, `sorted`, the clock and the random code are arguments; the tables take every write, the trail
-- and the store as they are said to.
pub mod Routes
pub mod Door
pub mod Standing
pub mod Revocation
pub mod Trail
pub mod Minting
use mathlib.Core.List.{reverse}
use agent_pay_sentinel.Prelude.{
  ℕ, ◌/◌, min, String, Bool, true, false, ◌||◌, Option, none, some, List, [], ◌∷◌, Dict, lookup,
  insert, take, ◌==◌, if◌then◌else◌,
}
use agent_pay_sentinel.Admin.{
  AdminSettings, AdminHeaders, AdminPrincipal, AdminAction, AdminAuditEvent, DelegationClaims,
  HttpException, TokenIn, http, record_admin_action, require_admin, sign_delegation_token,
}
use agent_pay_sentinel.Audit.{AuditEvent}
use agent_pay_sentinel.Clock.{second}
use agent_pay_sentinel.Context.{SpendingPolicy, Merchant, AgentRegistration, Tables}
use agent_pay_sentinel.Json.{Fields, end, field, text}
use agent_pay_sentinel.Linking.{
  Methods, LinkTables, IssuedCode, Linked, LinkError, issue_code, redeem_code, resolve_user,
  status_for_user, unlink_user,
}
use agent_pay_sentinel.Result.{Result, ok, err}
use agent_pay_sentinel.Store.{Store, revocation_set, sadd, srem, or_empty}

pub record AgentIn : Type 0 where
  pub agent_id : String
  pub owner_user_id : String
  pub display_name : String
  pub allowed_scopes : List String
  pub allowed_merchant_categories : List String
  pub active : Bool

-- Amounts in whole minor units: `Money` has two decimal places at most.
pub record PolicyIn : Type 0 where
  pub delegation_id : String
  pub user_id : String
  pub agent_id : String
  pub policy_version : String
  pub per_transaction_limit : ℕ
  pub daily_limit : ℕ
  pub currency : String
  pub allowed_merchants : List String
  pub blocked_merchants : List String
  pub require_verified_merchant : Bool
  pub approval_threshold : ℕ
  pub max_transactions_per_hour : ℕ

pub record MerchantIn : Type 0 where
  pub merchant_id : String
  pub display_name : String
  pub category : String
  pub verified : Bool
  pub risk_score : ℕ

-- What the service is built with.
pub record Service : Type 0 where
  pub settings : AdminSettings
  pub gateway_environment : String
  pub methods : Methods
  pub lower : String → String
  pub sorted : List String → List String
  pub sha256 : Fields → String
  pub str : ℕ → String
  pub encode : DelegationClaims → String
  pub has_private_key : Bool
  pub agent_dump : AgentIn → Fields
  pub policy_dump : PolicyIn → Fields
  pub merchant_dump : MerchantIn → Fields
  pub token_dump : TokenIn → Fields

-- What one call meets: the clock, the random code, whether the trail takes a row, and whether the
-- store answers.
pub record Outside : Type 0 where
  pub now : ℕ
  pub code : String
  pub trail_up : Bool
  pub trail_gap : ℕ
  pub store_up : Bool

pub record Plane (V : Type 0) : Type 0 where
  pub tables : Tables
  pub store : Store V
  pub telegram : LinkTables
  pub trail : List AdminAuditEvent
  pub audit_log : List AuditEvent

pub data Answer : Type 0 where
  done : (status subject : String) → Answer
  revoked : List String → Answer
  token : String → Answer
  policy : SpendingPolicy → Answer
  merchants : Dict Merchant → Answer
  events : List AdminAuditEvent → Answer
  link_code : IssuedCode → Answer
  linked : Linked → Answer
  link_status : Option (String × ℕ) → Answer
  whoami : Option String → Answer
  unlinked : ℕ → Answer
  was_reset : String → Answer

pub data AdminRequest : Type 0 where
  put_agent : AgentIn → AdminRequest
  put_policy : PolicyIn → AdminRequest
  put_merchant : MerchantIn → AdminRequest
  post_revoke : (delegation_id : String) → AdminRequest
  get_revoked : AdminRequest
  post_reinstate : (delegation_id : String) → AdminRequest
  post_token : TokenIn → AdminRequest
  read_policy : (delegation_id : String) → AdminRequest
  get_merchants : AdminRequest
  get_trail : (limit : ℕ) → AdminRequest
  post_link_code : (user_id : String) → AdminRequest
  post_link : (code telegram_id : String) → AdminRequest
  get_link_status : (user_id : String) → AdminRequest
  get_whoami : (telegram_id : String) → AdminRequest
  delete_link : (user_id : String) → AdminRequest
  post_reset : AdminRequest

abbrev pub Reply : Type 0
Reply = Result HttpException Answer

-- An exception that no route catches.
abbrev pub internal_error : Reply
internal_error = http 500 "Internal Server Error"

abbrev pub unknown_delegation : Reply
unknown_delegation = http 404 "unknown delegation"

unfoldable pub policy_of : PolicyIn → SpendingPolicy
policy_of b = record {
  user_id = b.user_id;
  agent_id = b.agent_id;
  policy_version = b.policy_version;
  per_transaction_limit = b.per_transaction_limit;
  daily_limit = b.daily_limit;
  currency = b.currency;
  allowed_merchants = b.allowed_merchants;
  blocked_merchants = b.blocked_merchants;
  require_verified_merchant = b.require_verified_merchant;
  approval_threshold = b.approval_threshold;
  max_transactions_per_hour = b.max_transactions_per_hour;
  revoked = false;
}

abbrev pub action_on : String → String → Fields → AdminAction
action_on action target payload = record {
  action = action;
  target = target;
  payload = payload;
  detail = "";
}
