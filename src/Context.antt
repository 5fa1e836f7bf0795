-- ===== src/Context.antt =====
-- The facts that a decision needs, gateway/context.py: the bound spending policy, the merchant and
-- the agent of the registry, the spend of the last day and the authorizations of the last hour.
pub mod Spend
use agent_pay_sentinel.Prelude.{
  ℕ, ◌+◌, ◌-◌, String, ◌<>◌, Bool, true, false, ◌&&◌, Option, none, some, List, [], ◌∷◌, Dict,
  lookup, leb, elem, ◌==◌, if◌then◌else◌,
}
use agent_pay_sentinel.Clock.{seconds}
use agent_pay_sentinel.Canonical.{CanonicalTransaction}
use agent_pay_sentinel.Store.{Store, zadd_window, zcount_window}

-- The columns of gateway/models.py, less `created_at`. `Numeric(12, 2)` columns hold whole minor
-- units, a risk score thousandths.
pub record SpendingPolicy : Type 0 where
  pub user_id : String
  pub agent_id : String
  pub policy_version : String
  pub per_transaction_limit : ℕ
  pub daily_limit : ℕ
  pub currency : String
  pub allowed_merchants : List String
  pub blocked_merchants : List String
  pub require_verified_merchant : Bool
  pub approval_threshold : ℕ
  pub max_transactions_per_hour : ℕ
  pub revoked : Bool

pub record Merchant : Type 0 where
  pub display_name : String
  pub verified : Bool
  pub category : String
  pub risk_score : ℕ

pub record AgentRegistration : Type 0 where
  pub owner_user_id : String
  pub display_name : String
  pub allowed_scopes : List String
  pub active : Bool
  pub allowed_merchant_categories : List String

-- The columns of `transactions` that the sum reads.
pub record Spending : Type 0 where
  pub user_id : String
  pub created_at : ℕ
  pub state : String
  pub amount : ℕ

pub record Tables : Type 0 where
  pub policies : Dict SpendingPolicy
  pub merchants : Dict Merchant
  pub agents : Dict AgentRegistration
  pub transactions : List Spending

pub record PolicyContext : Type 0 where
  pub policy_found : Bool
  pub policy_version : String
  pub per_transaction_limit : ℕ
  pub daily_limit : ℕ
  pub policy_currency : String
  pub allowed_merchants : List String
  pub blocked_merchants : List String
  pub require_verified_merchant : Bool
  pub approval_threshold : ℕ
  pub max_transactions_per_hour : ℕ
  pub policy_revoked : Bool
  pub merchant_known : Bool
  pub merchant_verified : Bool
  pub merchant_category : String
  pub merchant_registry_risk : ℕ
  pub agent_registered : Bool
  pub agent_active : Bool
  pub agent_allowed_categories : List String
  pub spent_today : ℕ
  pub transactions_last_hour : ℕ

-- `PolicyContext()`: nothing is bound, and the defaults are the strict ones.
abbrev pub empty_context : PolicyContext
empty_context = record {
  policy_found = false;
  policy_version = "unbound";
  per_transaction_limit = 0;
  daily_limit = 0;
  policy_currency = "USD";
  allowed_merchants = [];
  blocked_merchants = [];
  require_verified_merchant = true;
  approval_threshold = 0;
  max_transactions_per_hour = 10;
  policy_revoked = false;
  merchant_known = false;
  merchant_verified = false;
  merchant_category = "unknown";
  merchant_registry_risk = 900;
  agent_registered = false;
  agent_active = false;
  agent_allowed_categories = [];
  spent_today = 0;
  transactions_last_hour = 0;
}

abbrev pub settled_states : List String
settled_states = "AUTHORIZED" ∷ "SUBMITTED" ∷ "CONFIRMED" ∷ "TIMEOUT" ∷ "UNKNOWN" ∷ []

with_policy : Option SpendingPolicy → String → PolicyContext → PolicyContext
with_policy none user_id ctx = ctx
with_policy (some p) user_id ctx =
    if p.user_id == user_id
    then record ctx {
      policy_found = true;
      policy_version = p.policy_version;
      per_transaction_limit = p.per_transaction_limit;
      daily_limit = p.daily_limit;
      policy_currency = p.currency;
      allowed_merchants = p.allowed_merchants;
      blocked_merchants = p.blocked_merchants;
      require_verified_merchant = p.require_verified_merchant;
      approval_threshold = p.approval_threshold;
      max_transactions_per_hour = p.max_transactions_per_hour;
      policy_revoked = p.revoked;
    }
    else ctx

with_merchant : Option Merchant → PolicyContext → PolicyContext
with_merchant none ctx = ctx
with_merchant (some m) ctx = record ctx {
  merchant_known = true;
  merchant_verified = m.verified;
  merchant_category = m.category;
  merchant_registry_risk = m.risk_score;
}

with_agent : Option AgentRegistration → PolicyContext → PolicyContext
with_agent none ctx = ctx
with_agent (some a) ctx = record ctx {
  agent_registered = true;
  agent_active = a.active;
  agent_allowed_categories = a.allowed_merchant_categories;
}

counts_as_spent : String → ℕ → Spending → Bool
counts_as_spent user_id since t =
    t.user_id == user_id && (leb since t.created_at && elem t.state settled_states)

-- `select(coalesce(sum(amount), 0))` over the user's settled rows since a time
unfoldable pub spent : String → ℕ → List Spending → ℕ
unfolding counts_as_spent
spent user_id since [] = 0
spent user_id since (t ∷ ts) =
    (if counts_as_spent user_id since t then t.amount else 0) + spent user_id since ts

-- `f"agentpay:velocity:{user_id}:{agent_id}"`
unfoldable pub velocity_key : String → String → String
velocity_key user_id agent_id = "agentpay:velocity:" <> user_id <> ":" <> agent_id

abbrev pub day : ℕ
day = 86400

abbrev pub hour : ℕ
hour = 3600

module _ {V : Type 0} where
  unfoldable pub load_context : CanonicalTransaction → Tables → Store V → ℕ → PolicyContext
  unfolding with_policy with_merchant with_agent spent velocity_key
  load_context txn db s now =
      let bound = with_agent (lookup txn.agent_id db.agents) (
        with_merchant (lookup txn.merchant_id db.merchants)
          (with_policy (lookup txn.delegation_id db.policies) txn.user_id empty_context)) in
      record bound {
        spent_today = spent txn.user_id (now - seconds day) db.transactions;
        transactions_last_hour = zcount_window (velocity_key txn.user_id txn.agent_id) hour now s;
      }

  unfoldable pub record_velocity : CanonicalTransaction → String → ℕ → Store V → ℕ × Store V
  unfolding velocity_key
  record_velocity txn fresh now s =
      zadd_window (velocity_key txn.user_id txn.agent_id) hour fresh now s
