-- ===== src/Pipeline/Retry.antt =====
-- gateway/routes/payments.py and gateway/payments.py: a request and its retry.
use agent_pay_sentinel.Prelude.{ℕ, ◌+◌, ◌≤◌, ◌≡◌, refl, ap, ◌≢◌, Bool, false, none, eq_refl}
use agent_pay_sentinel.Canonical.{CanonicalTransaction}
use agent_pay_sentinel.Clock.{seconds}
use agent_pay_sentinel.Context.{PolicyContext}
use agent_pay_sentinel.Duplicates.{
  IdempotencyOutcome, is_conflict, check_duplicate, remember_outcome, replay,
}
use agent_pay_sentinel.Duplicates.Replay.{retry_replays}
use agent_pay_sentinel.Identity.{AgentIdentity}
use agent_pay_sentinel.Lifecycle.{created}
use agent_pay_sentinel.Payments.{Fault, persist_transaction}
use agent_pay_sentinel.Payments.Effects.{note-Alike}
use agent_pay_sentinel.Pdp.{PdpResult, evaluate}
use agent_pay_sentinel.Result.{Result, ok, err}
use agent_pay_sentinel.Schemas.{
  Decision, allow, require_approval, block, RiskAssessment, DecisionResponse,
}
use agent_pay_sentinel.Store.{Store}
use agent_pay_sentinel.Values.{Value}
use agent_pay_sentinel.Pipeline.{
  State, Deps, Call, then_do, with_pay, record_event_safe, is_review, is_allow, context_of,
  first_response, policy_input,
}
use agent_pay_sentinel.Pipeline.Acting.{act}
use agent_pay_sentinel.Pipeline.Running.{
  decision_event, conclude, replayed_response, decide, answer, run_pipeline,
}

review_no : (x : Decision) → x ≢ require_approval → is_review x ≡ false
review_no allow h = refl
review_no block h = refl
review_no require_approval h = absurd (h refl)

abbrev Answer : Type 0
Answer = Result Fault DecisionResponse

answered : DecisionResponse → Answer
answered r = ok r

ok_inj : (a b : DecisionResponse) → answered a ≡ answered b → a ≡ b
unfolding answered
ok_inj a b h = cc

module _ (d : Deps) where
  -- The store remembers this answer for this transaction.
  abbrev pub Remembers : CanonicalTransaction → ℕ → DecisionResponse → State → Type 0
  Remembers txn now r s =
      (reserve : Bool) × (st : Store Value) × (s.store
        ≡ remember_outcome d.lifetimes txn r reserve now st)

  concluded :
      (txn : CanonicalTransaction) (c : Call) (ctx : PolicyContext) (risk : RiskAssessment)
      (verdict : PdpResult) (m : Result Fault DecisionResponse × State) (final : DecisionResponse)
      → verdict.decision ≢ require_approval
      → (then_do m (conclude d txn c ctx risk verdict false)).0 ≡ ok final
      → Remembers txn c.now final (then_do m (conclude d txn c ctx risk verdict false)).1
  unfolding then_do conclude answered
  concluded txn c ctx risk verdict (err e, s) final ne h = cc
  concluded txn c ctx risk verdict (ok r, s) final ne h = rw (review_no verdict.decision ne) (
    is_allow verdict.decision,
    (record_event_safe d (decision_event d txn ctx risk verdict r) s).1.store,
    ap
        (λ x.
          remember_outcome d.lifetimes txn x (is_allow verdict.decision) c.now
            (record_event_safe d (decision_event d txn ctx risk verdict r) s).1.store)
        (ok_inj _ final h),
  )

  -- A run behind the duplicate check that finds no conflict and does not ask for an approval
  -- remembers the answer it gives.
  decided-Remembers :
      (txn : CanonicalTransaction) (identity : AgentIdentity) (c : Call) (o : IdempotencyOutcome)
      (s : State) (final : DecisionResponse)
      → is_conflict o ≡ false
      → (evaluate d.cut_detail d.opa (policy_input d txn identity o.finding c.now s)).decision
        ≢ require_approval
      → (decide d txn identity c o s).0 ≡ ok final
      → Remembers txn c.now final (decide d txn identity c o s).1
  unfolding decide
  decided-Remembers txn identity c o s final free ne h =
      let ctx = context_of d txn c.now s in
      let risk = d.assess txn ctx (d.analyze txn) in
      let verdict = evaluate d.cut_detail d.opa (policy_input d txn identity o.finding c.now s) in
      let m =
        then_do
          (with_pay s (
            persist_transaction txn verdict.decision verdict.reason_codes created risk
              verdict.policy_version none c.now s.pay))
          (λ _. act d txn c verdict (first_response d txn risk verdict c.now) verdict.decision) in
      rw free (concluded txn c ctx risk verdict m final ne (rw free at h))

  replayed :
      (txn again : CanonicalTransaction) (identity : AgentIdentity) (c : Call) (t : ℕ)
      (final : DecisionResponse) (s : State)
      → Remembers txn t final s
      → again.user_id ≡ txn.user_id
      → again.idempotency_key ≡ txn.idempotency_key
      → again.payload_hash ≡ txn.payload_hash
      → c.now ≤ t + seconds d.lifetimes.idempotency_ttl_seconds
      → let m = run_pipeline d again identity c s in
        (m.0 ≡ ok (replayed_response d final))
        × (m.1.pay.rows ≡ s.pay.rows)
        × (m.1.pay.posts ≡ s.pay.posts)
  unfolding run_pipeline answer record_event_safe
  replayed txn again identity c t final s (reserve, st, e) u k p h =
      let q : (check_duplicate again c.now s.store).0 ≡ replay final =
        rw
          (
            e,
            retry_replays d.lifetimes txn final t again reserve c.now st u k h,
            p,
            eq_refl txn.payload_hash,
          )
          refl in
      rw q (refl, (note-Alike d.services _ s.pay).rows, (note-Alike d.services _ s.pay).posts)

  -- When a run behind the duplicate check ends with an answer, found no conflict and does not ask for
  -- an approval, a retry by the same user under the same key with the same payload is given that
  -- answer, marked as replayed, for as long as idempotency records live; it changes no row of the
  -- table and posts no charge.
  pub retry_gets_the_answer :
      (txn again : CanonicalTransaction) (identity identity' : AgentIdentity) (c c' : Call)
      (o : IdempotencyOutcome) (s : State) (final : DecisionResponse)
      → is_conflict o ≡ false
      → (evaluate d.cut_detail d.opa (policy_input d txn identity o.finding c.now s)).decision
        ≢ require_approval
      → (decide d txn identity c o s).0 ≡ ok final
      → again.user_id ≡ txn.user_id
      → again.idempotency_key ≡ txn.idempotency_key
      → again.payload_hash ≡ txn.payload_hash
      → c'.now ≤ c.now + seconds d.lifetimes.idempotency_ttl_seconds
      → let first = (decide d txn identity c o s).1 in
        let m = run_pipeline d again identity' c' first in
        (m.0 ≡ ok (replayed_response d final))
        × (m.1.pay.rows ≡ first.pay.rows)
        × (m.1.pay.posts ≡ first.pay.posts)
  retry_gets_the_answer txn again identity identity' c c' o s final free ne h u k p t =
      replayed txn again identity' c' c.now final (decide d txn identity c o s).1
        (decided-Remembers txn identity c o s final free ne h) u k p t
