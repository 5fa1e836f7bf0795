-- ===== src/Payments/Outcome.antt =====
-- gateway/payments.py: the results of `submit`.
use agent_pay_sentinel.Prelude.{
  ℕ, suc, String, ◌≡◌, refl, true, false, Option, none, some, ◌∷◌, lookup, lookup-insert, eq_refl,
  Bool-cases, inl, inr, ltb, if◌then◌else◌,
}
use agent_pay_sentinel.Audit.{record_event}
use agent_pay_sentinel.Canonical.{CanonicalTransaction}
use agent_pay_sentinel.Lifecycle.{
  PaymentState, authorized, submitted, confirmed, failed, timeout, unknown, assert_transition,
}
use agent_pay_sentinel.Result.{Result, ok}
use agent_pay_sentinel.Payments.{
  Row, Charge, World, Fault, and_then, put, moved, Services, noted, note, reported, change, move,
  set_state,
}
use agent_pay_sentinel.Payments.Submission.{
  Reply, no_answer, response, ProviderOutcome, charge_of, settled, on_payload, on_reply, post,
  consume, submit, says,
}
use agent_pay_sentinel.Tokens.{IssuedToken}

-- What the provider's answer says of the payment; `none` is a success whose body is no JSON.
unfoldable pub verdict : Reply → Option PaymentState
verdict (no_answer exc) = some unknown
verdict (response code body none) = if ltb code 400 then none else some failed
verdict (response code body (some p)) =
    if ltb code 400
    then (if says "confirmed" p.status then some confirmed else some failed)
    else some failed

some_not_none : (a : PaymentState) → none ≡ some a → ⊥
some_not_none a h = cc

some_inj : (a b : PaymentState) → some a ≡ some b → b ≡ a
some_inj a b h = cc

module _ (env : Services) (open_log : (n : ℕ) → (env.outside n).locked ≡ true) where
  -- A change of state that is allowed, its row and its event both written.
  set_state-ok :
      (id : String) (target : PaymentState) (reference detail : Option String) (w : World) (r : Row)
      → lookup id w.rows ≡ some r
      → assert_transition r.state target ≡ ok tt
      → (v : World) × (set_state env id target reference detail true w ≡ (ok target, v))
        × (lookup id v.rows ≡ some (moved r target reference detail))
  unfolding set_state move change reported note noted record_event and_then
  set_state-ok id target reference detail w r e k =
      rw (e, k, open_log w.tried) (_, refl, rw (lookup-insert, eq_refl id) refl)

  -- The submission ended in this state, and so says the row.
  pub record Ends (id : String) (m : Result Fault ProviderOutcome × World) (s : PaymentState)
      : Type 0 where
    pub outcome : ProviderOutcome
    pub row : Row
    pub returned : m.0 ≡ ok outcome
    pub said : outcome.state ≡ s
    pub stored : lookup id m.1.rows ≡ some row
    pub state : row.state ≡ s

  settled-Ends :
      (txn : CanonicalTransaction) (target : PaymentState) (reference detail : Option String)
      (o : ProviderOutcome) (w : World) (r : Row)
      → lookup txn.payment_authorization_id w.rows ≡ some r
      → assert_transition r.state target ≡ ok tt
      → o.state ≡ target
      → Ends txn.payment_authorization_id (settled env txn target reference detail o w) target
  unfolding and_then
  settled-Ends txn target reference detail o w r e k q =
      let id = txn.payment_authorization_id in
      let (v, f, l) = set_state-ok id target reference detail w r e k in
      rw f (record {
        outcome = o;
        row = moved r target reference detail;
        returned = refl;
        said = q;
        stored = l;
        state = refl;
      })

  on_reply-Ends :
      (txn : CanonicalTransaction) (reply : Reply) (w : World) (r : Row) (s : PaymentState)
      → lookup txn.payment_authorization_id w.rows ≡ some r
      → r.state ≡ submitted
      → verdict reply ≡ some s
      → Ends txn.payment_authorization_id (on_reply env txn reply w) s
  unfolding on_reply on_payload verdict and_then assert_transition
  on_reply-Ends txn (no_answer exc) w r s e k h =
      let id = txn.payment_authorization_id in
      let (v, f, l) = set_state-ok id timeout none (some (env.cut exc)) w r e (rw k refl) in
      rw (f, some_inj unknown s h)
        (settled-Ends txn unknown none _ _ v (moved r timeout none (some (env.cut exc))) l refl
          refl)
  on_reply-Ends txn (response code body none) w r s e k h = elim (Bool-cases (ltb code 400)) [
    | inl c ↦ absurd (some_not_none s (rw c at h))
    | inr c ↦
        rw (c, some_inj failed s (rw c at h))
          (settled-Ends txn failed none (some (env.cut body)) _ w r e (rw k refl) refl)
  ]
  on_reply-Ends txn (response code body (some p)) w r s e k h = elim (Bool-cases (ltb code 400)) [
    | inl c ↦ elim (Bool-cases (says "confirmed" p.status)) [
      | inl y ↦
          rw (c, y, some_inj confirmed s (rw (c, y) at h))
            (settled-Ends txn confirmed p.provider_reference none _ w r e (rw k refl) refl)
      | inr y ↦
          rw (c, y, some_inj failed s (rw (c, y) at h))
            (settled-Ends txn failed none _ _ w r e (rw k refl) refl)
    ]
    | inr c ↦
        rw (c, some_inj failed s (rw c at h))
          (settled-Ends txn failed none (some (env.cut body)) _ w r e (rw k refl) refl)
  ]

  -- Where the lock on the audit log is always taken, a submission of an authorized payment whose token
  -- is unused, to a provider whose successful answers are JSON, comes back with an outcome, and the
  -- row is left in the outcome's state: UNKNOWN where no answer came, CONFIRMED only for an answer
  -- below 400 that says so, FAILED otherwise.
  pub submit-Ends :
      (txn : CanonicalTransaction) (t : IssuedToken) (provider : Charge → Reply) (w : World)
      (r : Row) (s : PaymentState)
      → lookup txn.payment_authorization_id w.rows ≡ some r
      → r.state ≡ authorized
      → r.token_uses ≡ 0
      → verdict (provider (charge_of env txn t)) ≡ some s
      → Ends txn.payment_authorization_id (submit env txn t provider w) s
  unfolding submit consume post and_then assert_transition
  submit-Ends txn t provider w r s e a u h =
      let id = txn.payment_authorization_id in
      let r' = record r { token_uses = suc r.token_uses } in
      let (v, f, l) =
        set_state-ok id submitted none none (put id r' w) r' (rw (lookup-insert, eq_refl id) refl)
          (rw a refl) in
      let z : ltb 0 r.token_uses ≡ false = rw u refl in
      rw (e, z, f)
        (on_reply-Ends txn (provider (charge_of env txn t))
          (record v { posts = charge_of env txn t ∷ v.posts }) (moved r' submitted none none) s l
          refl h)
