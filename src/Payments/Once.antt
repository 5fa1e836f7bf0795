-- ===== src/Payments/Once.antt =====
-- gateway/payments.py: the charges posted against the column `token_uses`.
use agent_pay_sentinel.Prelude.{
  ℕ, suc, ◌+◌, ◌≤◌, String, ◌==◌, ◌≡◌, refl, ◌∙◌, Bool, true, false, Option, none, some, List, [],
  ◌∷◌, arith, lookup, insert, lookup-insert, eq_iff, eq_refl, sym, Bool-cases, Option-cases, inl,
  inr, ltb, if◌then◌else◌, Dict,
}
use agent_pay_sentinel.Canonical.{CanonicalTransaction}
use agent_pay_sentinel.Lifecycle.{PaymentState, created, submitted, failed}
use agent_pay_sentinel.Result.{Result, ok, err}
use agent_pay_sentinel.Schemas.{Decision, RiskAssessment}
use agent_pay_sentinel.Tokens.{IssuedToken}
use agent_pay_sentinel.Payments.{
  Row, Charge, World, Fault, and_then, put, moved, Services, set_state, with_token, authorize,
  insert_row, row_of, persist_transaction,
}
use agent_pay_sentinel.Payments.Submission.{Reply, post, charge_of, consume, submit}
use agent_pay_sentinel.Payments.Effects.{Alike, Effect, unchanged, changed, set_state-Effect}
use agent_pay_sentinel.Payments.Moves.{
  Step, persist, authorise, submission, reject, reconcile, expire, Reach, start, next,
}
use agent_pay_sentinel.Payments.Steady.{
  Steady, authorize-Steady, on_reply-Steady, reconcile-Steady, expire_stale-Steady,
}

-- How many of the charges are for this authorization.
unfoldable pub posted : String → List Charge → ℕ
posted id [] = 0
posted id (c ∷ cs) = (if c.payment_authorization_id == id then 1 else 0) + posted id cs

uses_of : Option Row → ℕ
uses_of none = 0
uses_of (some r) = r.token_uses

-- The column `token_uses`, 0 where there is no row.
unfoldable pub uses : String → Dict Row → ℕ
unfolding uses_of
uses id rows = uses_of (lookup id rows)

record Quiet (v w : World) : Type 0 where
  posts : w.posts ≡ v.posts
  uses : (id : String) → uses id w.rows ≡ uses id v.rows

Quiet-refl : (w : World) → Quiet w w
Quiet-refl w = record { posts = refl; uses = λ id. refl }

Quiet-trans : (u v w : World) → Quiet u v → Quiet v w → Quiet u w
Quiet-trans u v w h k = record { posts = k.posts ∙ h.posts; uses = λ id. k.uses id ∙ h.uses id }

Quiet-Alike : (v w : World) → Alike v w → Quiet v w
Quiet-Alike v w a = record { posts = a.posts; uses = λ id. rw a.rows refl }

uses-insert :
    (id j : String) (r : Row) (d : Dict Row)
    → uses j (insert id r d) ≡ (if id == j then r.token_uses else uses j d)
unfolding uses
uses-insert id j r d = rw (lookup-insert) (ground arith)

Quiet-put :
    (id : String) (r : Row) (w : World) → r.token_uses ≡ uses id w.rows → Quiet w (put id r w)
Quiet-put id r w h = record {
  posts = refl;
  uses = λ j. elim (Bool-cases (id == j)) [
    | inl e ↦ rw (uses-insert, e) (cc (h, (eq_iff id j).0 e))
    | inr e ↦ rw (uses-insert, e) refl
  ];
}

Effect-Quiet :
    (id : String) (target : PaymentState) (reference detail : Option String) (v w : World)
    → Effect id target reference detail v w
    → Quiet v w
unfolding uses
Effect-Quiet id target reference detail v w (unchanged a) = Quiet-Alike v w a
Effect-Quiet id target reference detail v w (changed r e k a) =
    let r' = moved r target reference detail in
    Quiet-trans v (put id r' v) w (Quiet-put id r' v (rw e refl)) (Quiet-Alike (put id r' v) w a)

-- A charge was posted only where the token's one use is counted.
pub record Once (w : World) : Type 0 where
  pub counted : (id : String) → posted id w.posts ≤ uses id w.rows
  pub single : (id : String) → uses id w.rows ≤ 1

Once-Quiet : (v w : World) → Quiet v w → Once v → Once w
Once-Quiet v w q o = record {
  counted = λ id. rw (q.posts, q.uses id) (o.counted id);
  single = λ id. rw (q.uses id) (o.single id);
}

module _ (env : Services) where
  token-Quiet :
      (id : String) (t : IssuedToken) (w : World)
      → Quiet w (with_token env id t w (lookup id w.rows))
  unfolding with_token uses
  token-Quiet id t w = elim (Option-cases (lookup id w.rows)) [
    | inl e ↦ rw e (Quiet-refl w)
    | inr (r, e) ↦
        let r' = record r { token_jti = some t.jti; token_expires_at = some t.expires_at } in
        rw e (Quiet-put id r' w (rw e refl))
  ]

  Quiet-Steady : Steady env Quiet
  Quiet-Steady = record {
    here = Quiet-refl;
    there = Quiet-trans;
    at_state = λ id target reference detail audit w.
        Effect-Quiet id target reference detail w _
          (set_state-Effect env id target reference detail audit w);
    at_token = token-Quiet;
  }

  insert_row-Quiet :
      (id : String) (r : Row) (taken : Bool) (w : World) (q : Option Row)
      → r.token_uses ≡ 0
      → lookup id w.rows ≡ q
      → Quiet w (insert_row id r taken w q).1
  unfolding insert_row uses
  insert_row-Quiet id r taken w (some q) z h = Quiet-refl w
  insert_row-Quiet id r true w none z h = Quiet-refl w
  insert_row-Quiet id r false w none z h = Quiet-put id r w (rw (h, z) refl)

  -- What these operations post: nothing.
  pub set_state-posts :
      (id : String) (target : PaymentState) (reference detail : Option String) (audit : Bool)
      (w : World)
      → (set_state env id target reference detail audit w).1.posts ≡ w.posts
  set_state-posts id target reference detail audit w =
      (Quiet-Steady.at_state id target reference detail audit w).posts

  pub authorize-posts :
      (txn : CanonicalTransaction) (policy_version : String) (now : ℕ) (fresh : String) (w : World)
      → (authorize env txn policy_version now fresh w).1.posts ≡ w.posts
  authorize-posts txn policy_version now fresh w =
      (authorize-Steady env Quiet Quiet-Steady txn policy_version now fresh w).posts

  pub persist-posts :
      (txn : CanonicalTransaction) (decision : Decision) (reasons : List String)
      (risk : RiskAssessment) (policy_version : String) (now : ℕ) (w : World)
      → (persist_transaction txn decision reasons created risk policy_version none now w).1.posts
        ≡ w.posts
  unfolding persist_transaction
  persist-posts txn decision reasons risk policy_version now w =
      (insert_row-Quiet txn.payment_authorization_id
        (row_of txn decision reasons created risk policy_version none now) _ w _ refl refl).posts

  -- A use is counted that no charge has taken yet.
  Spare : String → World → Type 0
  Spare id w = Once w × (posted id w.posts + 1 ≤ uses id w.rows)

  uses-found :
      (id : String) (r : Row) (w : World)
      → lookup id w.rows ≡ some r
      → uses id w.rows ≡ r.token_uses
  unfolding uses
  uses-found id r w h = rw h refl

  -- What a row without a use has been posted for.
  unposted :
      (id : String) (r : Row) (w : World)
      → lookup id w.rows ≡ some r
      → ltb 0 r.token_uses ≡ false
      → Once w
      → (posted id w.posts ≡ 0) × (r.token_uses ≡ 0)
  unposted id r w h z o = let a = o.counted id in let b = uses-found id r w h in ground arith

  Spare-put :
      (id : String) (r : Row) (w : World)
      → lookup id w.rows ≡ some r
      → ltb 0 r.token_uses ≡ false
      → Once w
      → Spare id (put id (record r { token_uses = suc r.token_uses }) w)
  unfolding Spare
  Spare-put id r w h z o =
      let (p, q) = unposted id r w h z o in
      (
        record {
          counted = λ j. elim (Bool-cases (id == j)) [
            | inl e ↦ rw (uses-insert, e, sym ((eq_iff id j).0 e), p) (omega arith)
            | inr e ↦ rw (uses-insert, e) (o.counted j)
          ];
          single = λ j. elim (Bool-cases (id == j)) [
            | inl e ↦ rw (uses-insert, e, q) (omega arith)
            | inr e ↦ rw (uses-insert, e) (o.single j)
          ];
        },
        rw (uses-insert, eq_refl id, p, q) (omega arith),
      )

  Once-post :
      (txn : CanonicalTransaction) (t : IssuedToken) (provider : Charge → Reply) (v : World)
      → Spare txn.payment_authorization_id v
      → Once (post env txn t provider v).1
  unfolding post Spare posted
  Once-post txn t provider v (o, s) =
      let c = charge_of env txn t in
      let u = record v { posts = c ∷ v.posts } in
      Once-Quiet u _ (on_reply-Steady env Quiet Quiet-Steady txn (provider c) u) (record {
        counted = λ id. elim (Bool-cases (txn.payment_authorization_id == id)) [
          | inl e ↦
              let k = rw ((eq_iff txn.payment_authorization_id id).0 e) at s in rw e (omega arith)
          | inr e ↦ let k = o.counted id in rw e (omega arith)
        ];
        single = o.single;
      })

  sent-Once :
      {A : Type 0} (txn : CanonicalTransaction) (t : IssuedToken) (provider : Charge → Reply)
      (u : World) (m : Result Fault A × World)
      → Quiet u m.1
      → Spare txn.payment_authorization_id u
      → Once (and_then m (λ _. post env txn t provider)).1
  unfolding and_then Spare
  sent-Once txn t provider u (err e, v) q s = Once-Quiet u v q s.0
  sent-Once txn t provider u (ok a, v) q s =
      Once-post txn t provider v
        (Once-Quiet u v q s.0, rw (q.posts, q.uses txn.payment_authorization_id) s.1)

  submit-Once :
      (txn : CanonicalTransaction) (t : IssuedToken) (provider : Charge → Reply) (w : World)
      → Once w
      → Once (submit env txn t provider w).1
  unfolding submit consume
  submit-Once txn t provider w o =
      elim (Option-cases (lookup txn.payment_authorization_id w.rows)) [
        | inl e ↦ rw e o
        | inr (r, e) ↦ elim (Bool-cases (ltb 0 r.token_uses)) [
          | inl u ↦ rw (e, u) o
          | inr u ↦
              let id = txn.payment_authorization_id in
              let v = put id (record r { token_uses = suc r.token_uses }) w in
              rw (e, u)
                (sent-Once txn t provider v _ (Quiet-Steady.at_state id submitted none none true v)
                  (Spare-put id r w e u o))
        ]
      ]

  Step-Once : {v w : World} → Step env v w → Once v → Once w
  unfolding persist_transaction
  Step-Once (persist txn decision reasons risk policy_version now v) o =
      Once-Quiet v _
        (insert_row-Quiet txn.payment_authorization_id
          (row_of txn decision reasons created risk policy_version none now) _ v _ refl refl)
        o
  Step-Once (authorise txn policy_version now fresh v) o =
      Once-Quiet v _ (authorize-Steady env Quiet Quiet-Steady txn policy_version now fresh v) o
  Step-Once (submission txn t provider v) o = submit-Once txn t provider v o
  Step-Once (reject id detail v) o =
      Once-Quiet v _ (Quiet-Steady.at_state id failed none detail false v) o
  Step-Once (reconcile ask age now v) o =
      Once-Quiet v _ (reconcile-Steady env Quiet Quiet-Steady ask age now v) o
  Step-Once (expire now v) o = Once-Quiet v _ (expire_stale-Steady env Quiet Quiet-Steady now v) o

  Reach-Once : {v w : World} → Reach env v w → Once v → Once w
  Reach-Once start o = o
  Reach-Once (next h s) o = Step-Once s (Reach-Once h o)

  -- From a world in which every authorization has no more charges than counted uses, and no more than
  -- one use, such as an empty one: after any sequence of the operations, failed calls and a provider
  -- that times out included, at most one charge is posted for an authorization.
  pub at_most_one_post :
      (v w : World) → Once v → Reach env v w → (id : String) → posted id w.posts ≤ 1
  at_most_one_post v w o h id =
      let p = Reach-Once h o in let a = p.counted id in let b = p.single id in omega arith
