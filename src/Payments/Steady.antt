-- ===== src/Payments/Steady.antt =====
-- gateway/payments.py: relations between the world before and the world after that `set_state` keeps,
-- carried over to the operations that are made of it.
use agent_pay_sentinel.Prelude.{
  ℕ, String, Bool, true, ◌||◌, Option, none, some, List, [], ◌∷◌, lookup, Bool-cases, inl, inr, ltb,
  leb, eqb,
}
use agent_pay_sentinel.Canonical.{CanonicalTransaction}
use agent_pay_sentinel.Lifecycle.{PaymentState, authorized}
use agent_pay_sentinel.Result.{Result, ok, err}
use agent_pay_sentinel.Tokens.{IssuedToken}
use agent_pay_sentinel.Payments.{
  World, Fault, Run, and_then, Services, set_state, with_token, token_for, authorize,
}
use agent_pay_sentinel.Payments.Submission.{
  Reply, no_answer, response, Payload, on_payload, on_reply, says,
}
use agent_pay_sentinel.Payments.Recovery.{
  Resolved, by_payload, resolve_failed, resolve, resolve_all, reconcile_unknown, expire_all,
  expire_stale_authorizations, none_resolved,
}

-- A relation between the world before and the world after that holds of every change of a state and
-- of the columns that a token fills.
pub record Steady (env : Services) (R : World → World → Type 0) : Type 0 where
  pub here : (w : World) → R w w
  pub there : (u v w : World) → R u v → R v w → R u w
  pub at_state :
      (id : String) (target : PaymentState) (reference detail : Option String) (audit : Bool)
      (w : World)
      → R w (set_state env id target reference detail audit w).1
  pub at_token :
      (id : String) (t : IssuedToken) (w : World) → R w (with_token env id t w (lookup id w.rows))

module _ (env : Services) (R : World → World → Type 0) (st : Steady env R) where
  pub along :
      {A B : Type 0} (u : World) (m : Result Fault A × World) (f : A → Run B)
      → R u m.1
      → ((a : A) (v : World) → R v (f a v).1)
      → R u (and_then m f).1
  unfolding and_then
  along u (ok a, v) f h k = st.there u v (f a v).1 h (k a v)
  along u (err e, v) f h k = h

  pub authorize-Steady :
      (txn : CanonicalTransaction) (policy_version : String) (now : ℕ) (fresh : String) (w : World)
      → R w (authorize env txn policy_version now fresh w).1
  unfolding authorize
  authorize-Steady txn policy_version now fresh w =
      let id = txn.payment_authorization_id in
      let t = token_for env txn policy_version now fresh in
      let u = with_token env id t w (lookup id w.rows) in
      along w _ _ (st.there w u _ (st.at_token id t w) (st.at_state id authorized none none true u))
        (λ _ v. st.here v)

  pub on_reply-Steady :
      (txn : CanonicalTransaction) (reply : Reply) (w : World) → R w (on_reply env txn reply w).1
  unfolding on_reply on_payload
  on_reply-Steady txn (no_answer exc) w =
      along w _ _ (st.at_state _ _ _ _ _ w)
        (λ _ v. along v _ _ (st.at_state _ _ _ _ _ v) (λ _ u. st.here u))
  on_reply-Steady txn (response code body none) w = elim (Bool-cases (ltb code 400)) [
    | inl e ↦ rw e (st.here w)
    | inr e ↦ rw e (along w _ _ (st.at_state _ _ _ _ _ w) (λ _ u. st.here u))
  ]
  on_reply-Steady txn (response code body (some p)) w = elim (Bool-cases (ltb code 400)) [
    | inl e ↦ elim (Bool-cases (says "confirmed" p.status)) [
      | inl c ↦ rw (e, c) (along w _ _ (st.at_state _ _ _ _ _ w) (λ _ u. st.here u))
      | inr c ↦ rw (e, c) (along w _ _ (st.at_state _ _ _ _ _ w) (λ _ u. st.here u))
    ]
    | inr e ↦ rw e (along w _ _ (st.at_state _ _ _ _ _ w) (λ _ u. st.here u))
  ]

  expire_all-Steady : (ids : List String) (w : World) → R w (expire_all env ids w).1
  unfolding expire_all
  expire_all-Steady [] w = st.here w
  expire_all-Steady (id ∷ ids) w =
      along w _ _ (st.at_state _ _ _ _ _ w) (λ _ v. expire_all-Steady ids v)

  pub expire_stale-Steady : (now : ℕ) (w : World) → R w (expire_stale_authorizations env now w).1
  unfolding expire_stale_authorizations
  expire_stale-Steady now w = along w _ _ (expire_all-Steady _ w) (λ _ v. st.here v)

  failed-Steady :
      (id detail : String) (n : Resolved) (w : World) → R w (resolve_failed env id detail n w).1
  failed-Steady id detail n w = along w _ _ (st.at_state _ _ _ _ _ w) (λ _ v. st.here v)

  by_payload-Steady :
      (id : String) (n : Resolved) (p : Option Payload) (w : World)
      → R w (by_payload env id n p w).1
  unfolding by_payload
  by_payload-Steady id n none w = st.here w
  by_payload-Steady id n (some p) w = elim (Bool-cases (says "confirmed" p.status)) [
    | inl c ↦ rw c (along w _ _ (st.at_state _ _ _ _ _ w) (λ _ v. st.here v))
    | inr c ↦ elim (Bool-cases (says "failed" p.status || says "declined" p.status)) [
      | inl f ↦ rw (c, f) (failed-Steady id "resolved by reconciliation" n w)
      | inr f ↦ rw (c, f) (st.here w)
    ]
  ]

  resolve-Steady :
      (id : String) (n : Resolved) (reply : Reply) (w : World) → R w (resolve env id n reply w).1
  unfolding resolve
  resolve-Steady id n (no_answer exc) w = st.here w
  resolve-Steady id n (response code body p) w = elim (Bool-cases (eqb code 404)) [
    | inl a ↦ rw a (failed-Steady id "provider has no record; never charged" n w)
    | inr a ↦ elim (Bool-cases (leb 400 code)) [
      | inl b ↦ rw (a, b) (st.here w)
      | inr b ↦ rw (a, b) (by_payload-Steady id n p w)
    ]
  ]

  resolve_all-Steady :
      (ask : String → Reply) (ids : List String) (n : Resolved) (w : World)
      → R w (resolve_all env ask ids n w).1
  unfolding resolve_all
  resolve_all-Steady ask [] n w = st.here w
  resolve_all-Steady ask (id ∷ ids) n w =
      along w _ _ (resolve-Steady id n (ask id) w) (resolve_all-Steady ask ids)

  pub reconcile-Steady :
      (ask : String → Reply) (age now : ℕ) (w : World) → R w (reconcile_unknown env ask age now w).1
  unfolding reconcile_unknown
  reconcile-Steady ask age now w = resolve_all-Steady ask _ none_resolved w
