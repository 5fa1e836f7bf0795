-- ===== src/Payments/Moves.antt =====
-- gateway/payments.py: the steps of its operations, and what they do to the rows of the table.
use agent_pay_sentinel.Prelude.{
  ℕ, suc, String, ◌==◌, ◌≡◌, refl, ◌≢◌, ap, sym, ◌∙◌, Bool, true, false, Option, none, some, List,
  ◌∷◌, lookup, lookup-insert, eq_iff, Bool-cases, Option-cases, inl, inr, ltb, Dict,
}
use agent_pay_sentinel.Canonical.{CanonicalTransaction}
use agent_pay_sentinel.Lifecycle.{PaymentState, created, submitted, failed, confirmed}
use agent_pay_sentinel.Lifecycle.Edges.{◌⟶◌, park}
use agent_pay_sentinel.Money.{Decimal}
use agent_pay_sentinel.Schemas.{Decision, RiskAssessment}
use agent_pay_sentinel.Tokens.{IssuedToken}
use agent_pay_sentinel.Payments.{
  Row, Charge, World, put, moved, Services, set_state, with_token, authorize, insert_row, row_of,
  persist_transaction,
}
use agent_pay_sentinel.Payments.Submission.{Reply, post, charge_of, consume, submit}
use agent_pay_sentinel.Payments.Recovery.{reconcile_unknown, expire_stale_authorizations}
use agent_pay_sentinel.Payments.Effects.{Alike, Effect, unchanged, changed, set_state-Effect}
use agent_pay_sentinel.Payments.Steady.{
  Steady, along, authorize-Steady, on_reply-Steady, reconcile-Steady, expire_stale-Steady,
}

-- A way of any length along the arrows of the life cycle.
infix 40 ◌⟶*◌
pub data ◌⟶*◌ : PaymentState → PaymentState → Type 0 where
  stay : {s : PaymentState} → s ⟶* s
  go : {s t u : PaymentState} → s ⟶ t → t ⟶* u → s ⟶* u

pub ⟶*-trans : {s t u : PaymentState} → s ⟶* t → t ⟶* u → s ⟶* u
⟶*-trans stay k = k
⟶*-trans (go a h) k = go a (⟶*-trans h k)

-- What a decision is about.
pub record Facts : Type 0 where
  pub user_id : String
  pub idempotency_key : String
  pub merchant_id : String
  pub amount : Decimal
  pub currency : String
  pub cart_hash : String
  pub decision : Decision

abbrev pub facts : Row → Facts
facts r = record {
  user_id = r.user_id;
  idempotency_key = r.idempotency_key;
  merchant_id = r.merchant_id;
  amount = r.amount;
  currency = r.currency;
  cart_hash = r.cart_hash;
  decision = r.decision;
}

pub record Later (r r' : Row) : Type 0 where
  pub path : r.state ⟶* r'.state
  pub same : facts r' ≡ facts r

-- Every row that is there stays, with a state further on and all else that matters unchanged.
abbrev pub Moves : World → World → Type 0
Moves v w =
    (id : String) (r : Row)
    → lookup id v.rows ≡ some r
    → (r' : Row) × (lookup id w.rows ≡ some r') × Later r r'

Moves-refl : (w : World) → Moves w w
Moves-refl w id r h = (r, h, record { path = stay; same = refl })

Moves-trans : (u v w : World) → Moves u v → Moves v w → Moves u w
Moves-trans u v w h k id r e =
    let (s, f, l) = h id r e in
    let (t, g, m) = k id s f in
    (t, g, record { path = ⟶*-trans l.path m.path; same = m.same ∙ l.same })

one_row :
    (d : Dict Row) (r q : Row) (id j : String)
    → lookup id d ≡ some r
    → lookup j d ≡ some q
    → (id == j) ≡ true
    → r ≡ q
one_row d r q id j h e same = cc (h, e, (eq_iff id j).0 same)

Moves-put :
    (id : String) (r r' : Row) (w : World)
    → lookup id w.rows ≡ some r
    → Later r r'
    → Moves w (put id r' w)
Moves-put id r r' w h l j q e = elim (Bool-cases (id == j)) [
  | inl same ↦ (r', rw (lookup-insert, same) refl, rw (sym (one_row w.rows r q id j h e same)) l)
  | inr other ↦ (q, rw (lookup-insert, other) e, record { path = stay; same = refl })
]

Moves-new : (id : String) (r : Row) (w : World) → lookup id w.rows ≡ none → Moves w (put id r w)
Moves-new id r w h j q e = elim (Bool-cases (id == j)) [
  | inl same ↦ cc (h, e, (eq_iff id j).0 same)
  | inr other ↦ (q, rw (lookup-insert, other) e, record { path = stay; same = refl })
]

Moves-Alike : (u v w : World) → Moves u v → Alike v w → Moves u w
Moves-Alike u v w h a id r e = rw a.rows (h id r e)

moved-Later :
    (r : Row) (target : PaymentState) (reference detail : Option String)
    → r.state ⟶ target
    → Later r (moved r target reference detail)
moved-Later r target reference detail a = record { path = go a stay; same = refl }

Effect-Moves :
    (id : String) (target : PaymentState) (reference detail : Option String) (v w : World)
    → Effect id target reference detail v w
    → Moves v w
Effect-Moves id target reference detail v w (unchanged a) = Moves-Alike v v w (Moves-refl v) a
Effect-Moves id target reference detail v w (changed r e k a) =
    let r' = moved r target reference detail in
    Moves-Alike v (put id r' v) w (Moves-put id r r' v e (moved-Later r target reference detail k))
      a

insert_row-Moves :
    (id : String) (r : Row) (taken : Bool) (w : World) (q : Option Row)
    → lookup id w.rows ≡ q
    → Moves w (insert_row id r taken w q).1
unfolding insert_row
insert_row-Moves id r taken w (some q) h = Moves-refl w
insert_row-Moves id r true w none h = Moves-refl w
insert_row-Moves id r false w none h = Moves-new id r w h

no_arrow : {s t : PaymentState} → s ⟶ t → s ≢ confirmed
no_arrow park e = cc
no_arrow _ e = cc

confirmed_ends : {s t : PaymentState} → s ⟶* t → s ≡ confirmed → t ≡ confirmed
confirmed_ends stay e = e
confirmed_ends (go a h) e = absurd (no_arrow a e)

module _ (env : Services) where
  token-Moves :
      (id : String) (t : IssuedToken) (w : World)
      → Moves w (with_token env id t w (lookup id w.rows))
  unfolding with_token
  token-Moves id t w = elim (Option-cases (lookup id w.rows)) [
    | inl e ↦ rw e (Moves-refl w)
    | inr (r, e) ↦
        let r' = record r { token_jti = some t.jti; token_expires_at = some t.expires_at } in
        rw e (Moves-put id r r' w e (record { path = stay; same = refl }))
  ]

  Moves-Steady : Steady env Moves
  Moves-Steady = record {
    here = Moves-refl;
    there = Moves-trans;
    at_state = λ id target reference detail audit w.
        Effect-Moves id target reference detail w _
          (set_state-Effect env id target reference detail audit w);
    at_token = token-Moves;
  }

  post-Moves :
      (txn : CanonicalTransaction) (t : IssuedToken) (provider : Charge → Reply) (w : World)
      → Moves w (post env txn t provider w).1
  unfolding post
  post-Moves txn t provider w =
      on_reply-Steady env Moves Moves-Steady txn (provider (charge_of env txn t))
        (record w { posts = charge_of env txn t ∷ w.posts })

  submit-Moves :
      (txn : CanonicalTransaction) (t : IssuedToken) (provider : Charge → Reply) (w : World)
      → Moves w (submit env txn t provider w).1
  unfolding submit consume
  submit-Moves txn t provider w = elim (Option-cases (lookup txn.payment_authorization_id w.rows)) [
    | inl e ↦ rw e (Moves-refl w)
    | inr (r, e) ↦ elim (Bool-cases (ltb 0 r.token_uses)) [
      | inl u ↦ rw (e, u) (Moves-refl w)
      | inr u ↦
          let id = txn.payment_authorization_id in
          let r' = record r { token_uses = suc r.token_uses } in
          let v = put id r' w in
          rw (e, u)
            (along env Moves Moves-Steady w _ _
              (Moves-trans w v (set_state env id submitted none none true v).1
                (Moves-put id r r' w e (record { path = stay; same = refl }))
                (Moves-Steady.at_state id submitted none none true v))
              (λ _. post-Moves txn t provider))
    ]
  ]

  persist-Moves :
      (txn : CanonicalTransaction) (decision : Decision) (reasons : List String)
      (risk : RiskAssessment) (policy_version : String) (now : ℕ) (w : World)
      → Moves w (persist_transaction txn decision reasons created risk policy_version none now w).1
  unfolding persist_transaction
  persist-Moves txn decision reasons risk policy_version now w =
      insert_row-Moves txn.payment_authorization_id
        (row_of txn decision reasons created risk policy_version none now) _ w _ refl

  -- One call of one operation, with all that it is told by its caller, the clock, `uuid4` and the
  -- provider. A call may end with an exception: its step is what it leaves behind.
  pub data Step : World → World → Type 0 where
    persist :
        (txn : CanonicalTransaction) (decision : Decision) (reasons : List String)
        (risk : RiskAssessment) (policy_version : String) (now : ℕ) (w : World)
        → Step w (persist_transaction txn decision reasons created risk policy_version none now w).1
    authorise :
        (txn : CanonicalTransaction) (policy_version : String) (now : ℕ) (fresh : String)
        (w : World)
        → Step w (authorize env txn policy_version now fresh w).1
    submission :
        (txn : CanonicalTransaction) (t : IssuedToken) (provider : Charge → Reply) (w : World)
        → Step w (submit env txn t provider w).1
    reject :
        (id : String) (detail : Option String) (w : World)
        → Step w (set_state env id failed none detail false w).1
    reconcile :
        (ask : String → Reply) (age now : ℕ) (w : World)
        → Step w (reconcile_unknown env ask age now w).1
    expire : (now : ℕ) (w : World) → Step w (expire_stale_authorizations env now w).1

  pub data Reach : World → World → Type 0 where
    start : {w : World} → Reach w w
    next : {u v w : World} → Reach u v → Step v w → Reach u w

  Step-Moves : {v w : World} → Step v w → Moves v w
  Step-Moves (persist txn decision reasons risk policy_version now v) =
      persist-Moves txn decision reasons risk policy_version now v
  Step-Moves (authorise txn policy_version now fresh v) =
      authorize-Steady env Moves Moves-Steady txn policy_version now fresh v
  Step-Moves (submission txn t provider v) = submit-Moves txn t provider v
  Step-Moves (reject id detail v) = Moves-Steady.at_state id failed none detail false v
  Step-Moves (reconcile ask age now v) = reconcile-Steady env Moves Moves-Steady ask age now v
  Step-Moves (expire now v) = expire_stale-Steady env Moves Moves-Steady now v

  Reach-Moves : {v w : World} → Reach v w → Moves v w
  Reach-Moves {v} start = Moves-refl v
  Reach-Moves {v} {w} (next {v = u} h s) = Moves-trans v u w (Reach-Moves h) (Step-Moves s)

  -- Over any sequence of the operations, failed calls included, a row of the table is never lost, its
  -- state only goes along the arrows of the life cycle, and its user, idempotency key, merchant,
  -- amount, currency, cart and decision stay as they were persisted.
  pub history_follows :
      (v w : World)
      → Reach v w
      → (id : String) (r : Row) → lookup id v.rows ≡ some r
      → (r' : Row) × (lookup id w.rows ≡ some r') × (r.state ⟶* r'.state) × (facts r' ≡ facts r)
  history_follows v w h id r e = let (r', f, l) = Reach-Moves h id r e in (r', f, l.path, l.same)

  -- A confirmed payment stays confirmed, for the amount it was confirmed for.
  pub confirmed_forever :
      (v w : World)
      → Reach v w
      → (id : String) (r : Row) → lookup id v.rows ≡ some r
      → r.state ≡ confirmed
      → (r' : Row) × (lookup id w.rows ≡ some r') × (r'.state ≡ confirmed) × (r'.amount ≡ r.amount)
  confirmed_forever v w h id r e c =
      let (r', f, l) = Reach-Moves h id r e in
      (r', f, confirmed_ends l.path c, ap (λ x. x.amount) l.same)
