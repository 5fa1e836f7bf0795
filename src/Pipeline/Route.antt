-- ===== src/Pipeline/Route.antt =====
-- The route `POST /v1/payment-intents`, `create_payment_intent` of gateway/routes/payments.py, and
-- the blocks before the pipeline. The two locks are taken or not: `DistributedLock` has a module of
-- its own.
use agent_pay_sentinel.Prelude.{
  ℕ, String, ◌<>◌, Bool, false, Option, none, some, List, [], ◌∷◌, if◌then◌else◌,
}
use agent_pay_sentinel.Audit.{EventArgs}
use agent_pay_sentinel.Canonical.{build_canonical}
use agent_pay_sentinel.Identity.{AgentIdentity, IdentityError, Decoded, authenticate}
use agent_pay_sentinel.Json.{field, end, text}
use agent_pay_sentinel.Lifecycle.{failed}
use agent_pay_sentinel.Payments.{Fault, lock_timeout}
use agent_pay_sentinel.Pipeline.{State, Deps, Call, record_event_safe}
use agent_pay_sentinel.Pipeline.Running.{run_pipeline}
use agent_pay_sentinel.RateLimit.{
  Settings, Outcome, admitted, rejected, Faults, enforce_edge_rate_limit,
}
use agent_pay_sentinel.Result.{Result, ok, err}
use agent_pay_sentinel.Schemas.{
  block, value, PaymentIntent, RiskAssessment, DecisionResponse, no_signals,
}

-- The request, and what the handler reads from outside.
pub record Request : Type 0 where
  pub intent : PaymentIntent
  pub authorization : Option String
  pub decode : String → Decoded
  -- whether the revocation set can be read, and which calls of the rate limit raise
  pub revocations_readable : Bool
  pub faults : Faults
  pub agent_member : String
  pub delegation_member : String
  pub blocked_id : String
  pub payment_authorization_id : String
  -- whether the two locks, on the idempotency key and on the fingerprint, are both acquired
  pub locked : Bool
  pub call : Call

pub record Limits : Type 0 where
  pub rate : Settings
  pub fingerprint_window_seconds : ℕ

abbrev pub empty_risk : String → RiskAssessment
empty_risk policy_version = record {
  signals = no_signals;
  weighted_score = 0;
  policy_version_context = policy_version;
}

module _ (d : Deps) where
  abbrev pub refusal : String → List String → String → ℕ → DecisionResponse
  refusal pa_id reason_codes message now = record {
    payment_authorization_id = pa_id;
    decision = block;
    reason_codes = reason_codes;
    state = failed;
    risk = empty_risk d.policy_version;
    policy_version = d.policy_version;
    authorization = none;
    provider_reference = none;
    audit_event_id = none;
    audit_hash = none;
    created_at = now;
    replayed = false;
    message = message;
  }

  blocked_event : Request → List String → String → String → EventArgs
  blocked_event r reason_codes message stage = record {
    event_type = "decision.block";
    payload = field "stage" (text stage) (field "message" (text message) end);
    payment_authorization_id = some r.blocked_id;
    user_id = some r.intent.user_id;
    agent_id = some r.intent.agent_id;
    decision = some (value block);
    reason_codes = reason_codes;
    risk = end;
    policy_version = some d.policy_version;
  }

  unfoldable pub blocked_before_pipeline :
      Request → List String → String → String → State → DecisionResponse × State
  unfolding blocked_event
  blocked_before_pipeline r reason_codes message stage s =
      let ((id, hash), v) = record_event_safe d (blocked_event r reason_codes message stage) s in
      (
        record (refusal r.blocked_id reason_codes message r.call.now) {
          audit_event_id = id;
          audit_hash = hash;
        },
        v,
      )

  -- `except TimeoutError`, whichever lock timed out
  unfoldable pub or_in_flight :
      String → ℕ → Result Fault DecisionResponse × State → Result Fault DecisionResponse × State
  or_in_flight pa_id now (ok r, s) = (ok r, s)
  or_in_flight pa_id now (err lock_timeout, s) = (
    ok (
        refusal pa_id ("CONCURRENT_REQUEST_IN_FLIGHT" ∷ [])
          "another authorization for this idempotency key is in flight" now),
    s,
  )
  or_in_flight pa_id now (err e, s) = (err e, s)

  unfoldable pub in_critical_section :
      Limits → Request → AgentIdentity → State → Result Fault DecisionResponse × State
  unfolding or_in_flight
  in_critical_section l r identity s =
      let txn =
        build_canonical d.hashing r.intent identity r.payment_authorization_id r.call.now
          l.fingerprint_window_seconds in
      let run = run_pipeline d txn identity r.call s in
      or_in_flight r.payment_authorization_id r.call.now
        (if r.locked then run else (err lock_timeout, s))

  unfoldable pub limited_by :
      Limits → Request → AgentIdentity → Outcome → State → Result Fault DecisionResponse × State
  unfolding blocked_before_pipeline in_critical_section
  limited_by l r identity admitted s = in_critical_section l r identity s
  limited_by l r identity (rejected e) s =
      let (answer, v) =
        blocked_before_pipeline r ("RATE_LIMIT_EXCEEDED" ∷ [])
          ("edge rate limit exceeded for "
            <> (e.scope <> (" (" <> (d.hashing.str_int e.limit <> "/min)"))))
          "edge_rate_limit" s in
      (ok answer, v)

  unfoldable pub identified :
      Limits
      → Request
      → Result IdentityError AgentIdentity
      → State
      → Result Fault DecisionResponse × State
  unfolding blocked_before_pipeline limited_by
  identified l r (err e) s =
      let (answer, v) =
        blocked_before_pipeline r ("INVALID_IDENTITY" ∷ e.reason_code ∷ []) e.message "identity"
          s in
      (ok answer, v)
  identified l r (ok identity) s =
      let (outcome, st) =
        enforce_edge_rate_limit l.rate r.faults
          (record {
            agent_id = identity.agent_id;
            delegation_id = identity.delegation_id;
            now = r.call.now;
            agent_member = r.agent_member;
            delegation_member = r.delegation_member;
          })
          s.store in
      limited_by l r identity outcome (record s { store = st })

  unfoldable pub create_payment_intent :
      Limits → Request → State → Result Fault DecisionResponse × State
  unfolding identified
  create_payment_intent l r s =
      identified l r
        (authenticate d.services.strings r.decode r.revocations_readable r.authorization r.intent
          s.store)
        s
