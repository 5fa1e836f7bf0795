-- ===== src/Pipeline/Acting.antt =====
-- The payment authorization stage of `_run_pipeline`, gateway/routes/payments.py.
use agent_pay_sentinel.Prelude.{◌<>◌, false, none, some, if◌then◌else◌}
use agent_pay_sentinel.Approvals.{create_request}
use agent_pay_sentinel.Canonical.{CanonicalTransaction}
use agent_pay_sentinel.Context.{record_velocity}
use agent_pay_sentinel.Lifecycle.{authorized, failed}
use agent_pay_sentinel.Payments.{Fault, set_state, authorize}
use agent_pay_sentinel.Payments.Submission.{submit}
use agent_pay_sentinel.Pdp.{PdpResult}
use agent_pay_sentinel.Result.{Result, ok}
use agent_pay_sentinel.Schemas.{Decision, allow, require_approval, block, DecisionResponse}
use agent_pay_sentinel.Tokens.{IssuedToken}
use agent_pay_sentinel.Pipeline.{
  State, Deps, Call, then_do, with_pay, join_semicolon, token_view, after_provider,
}

module _ (d : Deps) where
  -- `if execute:` of the branch ALLOW
  unfoldable pub execute_token :
      CanonicalTransaction
      → Call
      → DecisionResponse
      → IssuedToken
      → State
      → Result Fault DecisionResponse × State
  execute_token txn c response t s =
      if c.execute
      then then_do (with_pay s (submit d.services txn t c.provider s.pay))
          (λ p v. (ok (after_provider d response p), v))
      else (ok (record response { message = "authorized; token issued, not submitted" }), s)

  -- 6. Payment Authorization Service
  unfoldable pub act :
      CanonicalTransaction
      → Call
      → PdpResult
      → DecisionResponse
      → Decision
      → State
      → Result Fault DecisionResponse × State
  unfolding execute_token
  act txn c verdict response block s =
      then_do
        (with_pay s (
          set_state d.services txn.payment_authorization_id failed none
            (some (d.services.cut (join_semicolon verdict.reason_codes))) false s.pay))
        (λ _ v. (
          ok (record response {
            state = failed;
            message = "blocked by policy; no token issued, provider not contacted";
          }),
          v,
        ))
  act txn c verdict response require_approval s =
      let (request, st) = create_request d.services.jwt txn verdict.reason_codes c.now s.store in
      (
        ok (record response {
          message =
              "human approval required; approve at /v1/approvals/"
              <> (request.approval_request_id
                  <> "/grant then retry with the returned approval_token");
        }),
        record s { store = st },
      )
  act txn c verdict response allow s =
      let (_, st) = record_velocity txn c.velocity_member c.now s.store in
      let v = record s { store = st } in
      then_do (with_pay v (authorize d.services txn verdict.policy_version c.now c.token_id v.pay))
        (λ t u.
          execute_token txn c
            (record response {
              state = authorized;
              authorization = some (token_view d txn verdict t);
            })
            t u)
