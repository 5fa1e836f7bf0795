-- ===== src/Pipeline/Guards.antt =====
-- gateway/routes/payments.py: the charges and the state behind a request.
use agent_pay_sentinel.Prelude.{
  ℕ, String, ◌≡◌, refl, ◌≢◌, ◌∙◌, Bool, true, false, ◌&&◌, not, Option, none, some, List,
  Bool-cases, inl, inr, if◌then◌else◌,
}
use agent_pay_sentinel.Audit.{EventArgs}
use agent_pay_sentinel.Canonical.{CanonicalTransaction, build_canonical}
use agent_pay_sentinel.Context.{PolicyContext}
use agent_pay_sentinel.Duplicates.{IdempotencyOutcome, is_conflict, check_duplicate}
use agent_pay_sentinel.Identity.{AgentIdentity, IdentityError}
use agent_pay_sentinel.Lifecycle.{failed}
use agent_pay_sentinel.Payments.{
  Charge, Fault, lock_timeout, bad_json, key_error, invalid_transition, integrity_error,
}
use agent_pay_sentinel.Payments.Effects.{note-Alike}
use agent_pay_sentinel.Payments.Once.{set_state-posts, authorize-posts, persist-posts}
use agent_pay_sentinel.Pdp.{PdpResult, PolicyInput, evaluate}
use agent_pay_sentinel.RateLimit.{Outcome, admitted, rejected}
use agent_pay_sentinel.Result.{Result, ok, err}
use agent_pay_sentinel.Schemas.{
  Decision, allow, require_approval, block, RiskAssessment, DecisionResponse,
}
use agent_pay_sentinel.Pipeline.{
  State, Deps, Call, then_do, record_event_safe, is_review, context_of, first_response,
  policy_input,
}
use agent_pay_sentinel.Pipeline.Acting.{execute_token, act}
use agent_pay_sentinel.Pipeline.Running.{decision_event, conclude, decide, answer, run_pipeline}
use agent_pay_sentinel.Pipeline.Route.{
  Limits, Request, or_in_flight, in_critical_section, limited_by, identified,
  blocked_before_pipeline, create_payment_intent,
}

-- The charges posted after a part of the pipeline.
abbrev posts_of : {A : Type 0} → Result Fault A × State → List Charge
posts_of m = m.1.pay.posts

then_do-posts :
    {A B : Type 0} (p : List Charge) (m : Result Fault A × State)
    (f : A → State → Result Fault B × State)
    → posts_of m ≡ p
    → ((a : A) (v : State) → v.pay.posts ≡ p → posts_of (f a v) ≡ p)
    → posts_of (then_do m f) ≡ p
unfolding then_do
then_do-posts p (ok a, v) f h k = k a v h
then_do-posts p (err e, v) f h k = h

module _ (d : Deps) where
  pub safe-posts : (a : EventArgs) (s : State) → (record_event_safe d a s).1.pay.posts ≡ s.pay.posts
  unfolding record_event_safe
  safe-posts a s = (note-Alike d.services a s.pay).posts

  conclude-posts :
      (txn : CanonicalTransaction) (c : Call) (ctx : PolicyContext) (risk : RiskAssessment)
      (verdict : PdpResult) (conflict : Bool) (response : DecisionResponse) (s : State)
      → posts_of (conclude d txn c ctx risk verdict conflict response s) ≡ s.pay.posts
  unfolding conclude
  conclude-posts txn c ctx risk verdict conflict response s =
      let a = decision_event d txn ctx risk verdict response in
      elim (Bool-cases (not conflict && not (is_review verdict.decision))) [
        | inl e ↦ rw e (safe-posts a s)
        | inr e ↦ rw e (safe-posts a s)
      ]

  act-posts :
      (txn : CanonicalTransaction) (c : Call) (verdict : PdpResult) (response : DecisionResponse)
      (decision : Decision) (s : State)
      → decision ≢ allow
      → posts_of (act d txn c verdict response decision s) ≡ s.pay.posts
  unfolding act
  act-posts txn c verdict response block s ne =
      then_do-posts s.pay.posts _ _
        (set_state-posts d.services txn.payment_authorization_id failed none _ false s.pay)
        (λ _ v h. h)
  act-posts txn c verdict response require_approval s ne = refl
  act-posts txn c verdict response allow s ne = absurd (ne refl)

  act-dry :
      (txn : CanonicalTransaction) (c : Call) (verdict : PdpResult) (response : DecisionResponse)
      (decision : Decision) (s : State)
      → c.execute ≡ false
      → posts_of (act d txn c verdict response decision s) ≡ s.pay.posts
  unfolding act execute_token
  act-dry txn c verdict response allow s off =
      then_do-posts s.pay.posts _ _
        (authorize-posts d.services txn verdict.policy_version c.now c.token_id s.pay)
        (λ t v h. rw off h)
  act-dry txn c verdict response block s off = act-posts txn c verdict response block s (λ e. cc e)
  act-dry txn c verdict response require_approval s off = refl

  Quiet-decide :
      (txn : CanonicalTransaction) (identity : AgentIdentity) (c : Call) (o : IdempotencyOutcome)
      (s : State)
      → ((verdict : PdpResult) (response : DecisionResponse) (v : State)
          → verdict ≡ evaluate d.cut_detail d.opa (policy_input d txn identity o.finding c.now s)
          → posts_of (act d txn c verdict response verdict.decision v) ≡ v.pay.posts)
      → posts_of (decide d txn identity c o s) ≡ s.pay.posts
  unfolding decide
  Quiet-decide txn identity c o s h =
      let ctx = context_of d txn c.now s in
      let risk = d.assess txn ctx (d.analyze txn) in
      let verdict = evaluate d.cut_detail d.opa (policy_input d txn identity o.finding c.now s) in
      then_do-posts s.pay.posts _ _
        (then_do-posts s.pay.posts _ _
          (persist-posts d.services txn verdict.decision verdict.reason_codes risk
            verdict.policy_version c.now s.pay)
          (λ _ v e. h verdict (first_response d txn risk verdict c.now) v refl ∙ e))
        (λ r v e. conclude-posts txn c ctx risk verdict (is_conflict o) r v ∙ e)

  answer-posts :
      (txn : CanonicalTransaction) (identity : AgentIdentity) (c : Call) (o : IdempotencyOutcome)
      (r : Option DecisionResponse) (s : State)
      → posts_of (decide d txn identity c o s) ≡ s.pay.posts
      → posts_of (answer d txn identity c o r s) ≡ s.pay.posts
  unfolding answer
  answer-posts txn identity c o none s h = h
  answer-posts txn identity c o (some r) s h = safe-posts _ s

  -- The pipeline posts no charge where the policy decision point, on what this transaction's facts
  -- make of its input, does not say ALLOW.
  pub only_allow_posts :
      (txn : CanonicalTransaction) (identity : AgentIdentity) (c : Call) (s : State)
      → let (o, st) = check_duplicate txn c.now s.store in
        (evaluate d.cut_detail d.opa
            (policy_input d txn identity o.finding c.now (record s { store = st }))).decision
          ≢ allow
        → posts_of (run_pipeline d txn identity c s) ≡ s.pay.posts
  unfolding run_pipeline
  only_allow_posts txn identity c s ne =
      let o = (check_duplicate txn c.now s.store).0 in
      let v = record s { store = (check_duplicate txn c.now s.store).1 } in
      answer-posts txn identity c o o.replay_response v (
        Quiet-decide txn identity c o v
          (λ verdict response u e. act-posts txn c verdict response verdict.decision u (rw e ne)))

  -- With `execute=false` the pipeline posts no charge, whatever is decided.
  pub dry_run_posts_nothing :
      (txn : CanonicalTransaction) (identity : AgentIdentity) (c : Call) (s : State)
      → c.execute ≡ false
      → posts_of (run_pipeline d txn identity c s) ≡ s.pay.posts
  unfolding run_pipeline
  dry_run_posts_nothing txn identity c s off =
      let o = (check_duplicate txn c.now s.store).0 in
      let v = record s { store = (check_duplicate txn c.now s.store).1 } in
      answer-posts txn identity c o o.replay_response v (
        Quiet-decide txn identity c o v
          (λ verdict response u e. act-dry txn c verdict response verdict.decision u off))

  blocked-posts :
      (r : Request) (reasons : List String) (message stage : String) (s : State)
      → (blocked_before_pipeline d r reasons message stage s).1.pay.posts ≡ s.pay.posts
  unfolding blocked_before_pipeline
  blocked-posts r reasons message stage s = safe-posts _ s

  or_in_flight-posts :
      (id : String) (now : ℕ) (m : Result Fault DecisionResponse × State)
      → posts_of (or_in_flight d id now m) ≡ posts_of m
  unfolding or_in_flight
  or_in_flight-posts id now (ok r, v) = refl
  or_in_flight-posts id now (err lock_timeout, v) = refl
  or_in_flight-posts id now (err bad_json, v) = refl
  or_in_flight-posts id now (err (key_error k), v) = refl
  or_in_flight-posts id now (err (invalid_transition e), v) = refl
  or_in_flight-posts id now (err (integrity_error k), v) = refl

  locked-posts :
      (locked : Bool) (id : String) (now : ℕ) (m : Result Fault DecisionResponse × State)
      (s : State)
      → posts_of m ≡ s.pay.posts
      → posts_of (or_in_flight d id now (if locked then m else (err lock_timeout, s))) ≡ s.pay.posts
  unfolding or_in_flight
  locked-posts true id now m s h = or_in_flight-posts id now m ∙ h
  locked-posts false id now m s h = refl

  limited_by-posts :
      (l : Limits) (r : Request) (identity : AgentIdentity) (o : Outcome) (s : State)
      → ((input : PolicyInput) → (evaluate d.cut_detail d.opa input).decision ≢ allow)
      → posts_of (limited_by d l r identity o s) ≡ s.pay.posts
  unfolding limited_by in_critical_section
  limited_by-posts l r identity (rejected e) s ne = blocked-posts r _ _ "edge_rate_limit" s
  limited_by-posts l r identity admitted s ne =
      let txn =
        build_canonical d.hashing r.intent identity r.payment_authorization_id r.call.now
          l.fingerprint_window_seconds in
      locked-posts r.locked r.payment_authorization_id r.call.now
        (run_pipeline d txn identity r.call s) s (only_allow_posts txn identity r.call s (ne _))

  identified-posts :
      (l : Limits) (r : Request) (i : Result IdentityError AgentIdentity) (s : State)
      → ((input : PolicyInput) → (evaluate d.cut_detail d.opa input).decision ≢ allow)
      → posts_of (identified d l r i s) ≡ s.pay.posts
  unfolding identified
  identified-posts l r (err e) s ne = blocked-posts r _ e.message "identity" s
  identified-posts l r (ok identity) s ne = limited_by-posts l r identity _ _ ne

  -- While no answer of the policy decision point comes out as ALLOW, as when OPA cannot be reached,
  -- no request to the route posts a charge.
  pub no_allow_no_charge :
      (l : Limits) (r : Request) (s : State)
      → ((input : PolicyInput) → (evaluate d.cut_detail d.opa input).decision ≢ allow)
      → posts_of (create_payment_intent d l r s) ≡ s.pay.posts
  unfolding create_payment_intent
  no_allow_no_charge l r s ne = identified-posts l r _ s ne
