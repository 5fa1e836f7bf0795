-- ===== src/Pipeline.antt =====
-- The enforcement pipeline, gateway/routes/payments.py: the state, and what
-- the stages of `_run_pipeline` share. The content analyzer and the risk engine are arguments, and so is OPA. One
-- reading of the clock stands for all of those of a request; the events for the visualiser are left
-- out.
pub mod Acting
pub mod Running
pub mod Route
pub mod Guards
pub mod Retry
use agent_pay_sentinel.Prelude.{
  ℕ, String, ◌<>◌, ◌==◌, Bool, true, false, ◌&&◌, not, Option, none, some, List, [], ◌∷◌, Dict,
  if◌then◌else◌,
}
use agent_pay_sentinel.Approvals.{create_request, evaluate_token}
use agent_pay_sentinel.Audit.{EventArgs}
use agent_pay_sentinel.Canonical.{CanonicalTransaction, Hashing}
use agent_pay_sentinel.Context.{
  SpendingPolicy, Merchant, AgentRegistration, Spending, Tables, PolicyContext, load_context,
  record_velocity,
}
use agent_pay_sentinel.Duplicates.{
  Lifetimes, IdempotencyOutcome, is_conflict, check_duplicate, remember_outcome,
}
use agent_pay_sentinel.Identity.{AgentIdentity, join}
use agent_pay_sentinel.Json.{Fields, field, end, text, flag, obj}
use agent_pay_sentinel.Lifecycle.{PaymentState, created, authorized, failed, unknown, same}
use agent_pay_sentinel.Money.{ℤ, pos, negsuc, to_minor_units}
use agent_pay_sentinel.Payments.{
  Row, Charge, World, Fault, Run, Services, note, set_state, authorize, persist_transaction,
}
use agent_pay_sentinel.Payments.Submission.{Reply, ProviderOutcome, submit}
use agent_pay_sentinel.Pdp.{
  Security, PdpResult, PolicyInput, OpaReply, DuplicateFinding, build_input, evaluate,
}
use agent_pay_sentinel.Result.{Result, ok, err}
use agent_pay_sentinel.Schemas.{
  Decision, allow, require_approval, block, value, state_value, RiskAssessment, AuthorizationToken,
  DecisionResponse,
}
use agent_pay_sentinel.Store.{Store}
use agent_pay_sentinel.Tokens.{IssuedToken}
use agent_pay_sentinel.Values.{Value}

-- The shared store, and the database with the audit log and the charges posted.
pub record State : Type 0 where
  pub store : Store Value
  pub pay : World

-- What the analyzer finds, and its `to_dict`.
pub record Analysis : Type 0 where
  pub security : Security
  pub dict : Fields

-- The settings, the registry, and the code that is not modelled.
pub record Deps : Type 0 where
  pub services : Services
  pub hashing : Hashing
  pub policies : Dict SpendingPolicy
  pub merchants : Dict Merchant
  pub agents : Dict AgentRegistration
  pub analyze : CanonicalTransaction → Analysis
  pub assess : CanonicalTransaction → PolicyContext → Analysis → RiskAssessment
  pub opa : PolicyInput → OpaReply
  -- `text[:120]`
  pub cut_detail : String → String
  -- `model_dump` of a risk assessment and `to_dict` of a context
  pub dump_risk : RiskAssessment → Fields
  pub dump_context : PolicyContext → Fields
  pub allow_degraded_classifier : Bool
  pub degraded_classifier_requires_review : Bool
  pub lifetimes : Lifetimes
  pub policy_version : String

-- What is particular to one run: the clock, the `uuid4`s, `execute`, and the provider's answers.
pub record Call : Type 0 where
  pub now : ℕ
  pub velocity_member : String
  pub token_id : String
  pub execute : Bool
  pub provider : Charge → Reply

magnitude : ℤ → ℕ
magnitude (pos n) = n
magnitude (negsuc n) = n

-- The columns that the spend of the day is summed over.
unfoldable pub spendings : Dict Row → List Spending
unfolding magnitude
spendings [] = []
spendings ((id, r) ∷ rows) =
    record {
      user_id = r.user_id;
      created_at = r.created_at;
      state = state_value r.state;
      amount = magnitude (to_minor_units r.amount);
    }
    ∷ spendings rows

-- One part after another: an exception ends the request, and what was done stays.
unfoldable pub then_do :
    {A B : Type 0}
    → Result Fault A × State
    → (A → State → Result Fault B × State)
    → Result Fault B × State
then_do (ok a, s) f = f a s
then_do (err e, s) f = (err e, s)

abbrev pub with_pay : {A : Type 0} → State → Result Fault A × World → Result Fault A × State
with_pay s (a, w) = (a, record s { pay = w })

-- `"; ".join(...)`
unfoldable pub join_semicolon : List String → String
join_semicolon [] = ""
join_semicolon (s ∷ []) = s
join_semicolon (s ∷ t ∷ ss) = s <> ("; " <> join_semicolon (t ∷ ss))

abbrev pub or_message : String → String → String
or_message s d = if s == "" then d else s

abbrev pub is_review : Decision → Bool
is_review require_approval = true
is_review _ = false

abbrev pub is_allow : Decision → Bool
is_allow allow = true
is_allow _ = false

module _ (d : Deps) where
  safe : Result Fault (String × String) → Option String × Option String
  safe (ok (id, hash)) = (some id, some hash)
  safe (err e) = (none, none)

  -- An audit event that cannot be written is left out.
  unfoldable pub record_event_safe : EventArgs → State → (Option String × Option String) × State
  unfolding safe
  record_event_safe a s = let (r, w) = note d.services a s.pay in (safe r, record s { pay = w })

  abbrev pub context_of : CanonicalTransaction → ℕ → State → PolicyContext
  context_of txn now s =
      load_context txn
        (record {
          policies = d.policies;
          merchants = d.merchants;
          agents = d.agents;
          transactions = spendings s.pay.rows;
        })
        s.store now

  -- What the policy decision point is asked.
  unfoldable pub policy_input :
      CanonicalTransaction → AgentIdentity → DuplicateFinding → ℕ → State → PolicyInput
  policy_input txn identity finding now s =
      let analysis = d.analyze txn in
      let ctx = context_of txn now s in
      build_input txn ctx analysis.security (d.assess txn ctx analysis)
        (record { valid = true; user_id = identity.user_id; reason_codes = [] }) finding
        (evaluate_token d.services.jwt now txn.approval_token) d.allow_degraded_classifier
        d.degraded_classifier_requires_review

  abbrev pub first_response :
      CanonicalTransaction → RiskAssessment → PdpResult → ℕ → DecisionResponse
  first_response txn risk verdict now = record {
    payment_authorization_id = txn.payment_authorization_id;
    decision = verdict.decision;
    reason_codes = verdict.reason_codes;
    state = created;
    risk = risk;
    policy_version = verdict.policy_version;
    authorization = none;
    provider_reference = none;
    audit_event_id = none;
    audit_hash = none;
    created_at = now;
    replayed = false;
    message = "";
  }

  abbrev pub token_view : CanonicalTransaction → PdpResult → IssuedToken → AuthorizationToken
  token_view txn verdict t = record {
    token = t.token;
    payment_authorization_id = txn.payment_authorization_id;
    merchant_id = txn.merchant_id;
    amount = txn.amount;
    currency = txn.currency;
    cart_hash = txn.cart_hash;
    expires_at = t.expires_at;
    max_uses = 1;
    policy_version = verdict.policy_version;
  }

  abbrev pub after_provider : DecisionResponse → ProviderOutcome → DecisionResponse
  after_provider response p = record response {
    state = p.state;
    provider_reference = p.provider_reference;
    message =
        if same p.state unknown
        then "provider did not respond; payment is UNKNOWN and queued for reconciliation. This is not a success."
        else or_message p.detail "payment confirmed";
  }
