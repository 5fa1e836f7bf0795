-- ===== src/Pipeline/Running.antt =====
-- `_run_pipeline` of gateway/routes/payments.py, from the duplicate check to the remembered answer.
use agent_pay_sentinel.Prelude.{
  ◌<>◌, Bool, true, ◌&&◌, not, Option, none, some, [], ◌∷◌, if◌then◌else◌,
}
use agent_pay_sentinel.Audit.{EventArgs}
use agent_pay_sentinel.Canonical.{CanonicalTransaction}
use agent_pay_sentinel.Context.{PolicyContext}
use agent_pay_sentinel.Duplicates.{
  IdempotencyOutcome, is_conflict, check_duplicate, remember_outcome,
}
use agent_pay_sentinel.Identity.{AgentIdentity}
use agent_pay_sentinel.Json.{field, end, text, flag, obj}
use agent_pay_sentinel.Lifecycle.{created}
use agent_pay_sentinel.Payments.{Fault, persist_transaction}
use agent_pay_sentinel.Pdp.{PdpResult, evaluate}
use agent_pay_sentinel.Result.{Result, ok}
use agent_pay_sentinel.Schemas.{value, state_value, RiskAssessment, DecisionResponse}
use agent_pay_sentinel.Pipeline.{
  State, Deps, Call, then_do, with_pay, is_review, is_allow, record_event_safe, context_of,
  policy_input, first_response,
}
use agent_pay_sentinel.Pipeline.Acting.{act}

module _ (d : Deps) where
  unfoldable pub decision_event :
      CanonicalTransaction
      → PolicyContext
      → RiskAssessment
      → PdpResult
      → DecisionResponse
      → EventArgs
  decision_event txn ctx risk verdict response = record {
    event_type = "decision." <> d.services.strings.lower (value verdict.decision);
    payload = field "merchant_id" (text txn.merchant_id) (
        field "amount" (text (d.hashing.str_decimal txn.amount)) (
          field "currency" (text txn.currency) (
            field "cart_hash" (text txn.cart_hash) (
              field "fingerprint" (text txn.fingerprint) (
                field "idempotency_key" (text txn.idempotency_key) (
                  field "state" (text (state_value response.state)) (
                    field "analysis" (obj (d.analyze txn).dict) (
                      field "context" (obj (d.dump_context ctx))
                        (field "pdp_available" (flag verdict.pdp_available) end)))))))));
    payment_authorization_id = some txn.payment_authorization_id;
    user_id = some txn.user_id;
    agent_id = some txn.agent_id;
    decision = some (value verdict.decision);
    reason_codes = verdict.reason_codes;
    risk = d.dump_risk risk;
    policy_version = some verdict.policy_version;
  }

  -- 7. the audit event, and the answer that is remembered
  unfoldable pub conclude :
      CanonicalTransaction
      → Call
      → PolicyContext
      → RiskAssessment
      → PdpResult
      → Bool
      → DecisionResponse
      → State
      → Result Fault DecisionResponse × State
  unfolding decision_event
  conclude txn c ctx risk verdict conflict response s =
      let ((id, hash), v) = record_event_safe d (decision_event txn ctx risk verdict response) s in
      let final = record response { audit_event_id = id; audit_hash = hash } in
      (
        ok final,
        if not conflict && not (is_review verdict.decision)
            then record v {
              store =
                  remember_outcome d.lifetimes txn final (is_allow verdict.decision) c.now v.store;
            }
            else v,
      )

  -- Everything behind the duplicate check.
  unfoldable pub decide :
      CanonicalTransaction
      → AgentIdentity
      → Call
      → IdempotencyOutcome
      → State
      → Result Fault DecisionResponse × State
  unfolding act conclude policy_input
  decide txn identity c outcome s =
      let ctx = context_of d txn c.now s in
      let risk = d.assess txn ctx (d.analyze txn) in
      let verdict =
        evaluate d.cut_detail d.opa (policy_input d txn identity outcome.finding c.now s) in
      then_do
        (then_do
          (with_pay s (
            persist_transaction txn verdict.decision verdict.reason_codes created risk
              verdict.policy_version none c.now s.pay))
          (λ _. act d txn c verdict (first_response d txn risk verdict c.now) verdict.decision))
        (conclude txn c ctx risk verdict (is_conflict outcome))

  abbrev pub replayed_response : DecisionResponse → DecisionResponse
  replayed_response r = record r {
    replayed = true;
    message = "idempotent replay: identical stored response returned";
  }

  unfoldable pub replay_event : CanonicalTransaction → DecisionResponse → EventArgs
  replay_event txn stored = record {
    event_type = "decision.idempotent_replay";
    payload = field "idempotency_key" (text txn.idempotency_key) end;
    payment_authorization_id = some stored.payment_authorization_id;
    user_id = some txn.user_id;
    agent_id = some txn.agent_id;
    decision = some (value stored.decision);
    reason_codes = "IDEMPOTENT_REPLAY" ∷ [];
    risk = end;
    policy_version = some d.policy_version;
  }

  unfoldable pub answer :
      CanonicalTransaction
      → AgentIdentity
      → Call
      → IdempotencyOutcome
      → Option DecisionResponse
      → State
      → Result Fault DecisionResponse × State
  unfolding decide replay_event
  answer txn identity c outcome none s = decide txn identity c outcome s
  answer txn identity c outcome (some r) s =
      let stored = replayed_response r in
      (ok stored, (record_event_safe d (replay_event txn stored) s).1)

  unfoldable pub run_pipeline :
      CanonicalTransaction → AgentIdentity → Call → State → Result Fault DecisionResponse × State
  unfolding answer
  run_pipeline txn identity c s =
      let (outcome, st) = check_duplicate txn c.now s.store in
      answer txn identity c outcome outcome.replay_response (record s { store = st })
