-- ===== src/Payments/Effects.antt =====
-- gateway/payments.py: `set_state` on the table and on the charges.
use agent_pay_sentinel.Prelude.{
  String, ◌≡◌, refl, ◌⊎◌, inl, inr, Bool, true, false, Option, some, lookup, Option-cases,
}
use agent_pay_sentinel.Audit.{EventArgs, record_event}
use agent_pay_sentinel.Lifecycle.{PaymentState, assert_transition}
use agent_pay_sentinel.Lifecycle.Edges.{◌⟶◌, accepted-⟶}
use agent_pay_sentinel.Result.{Result, ok, err}
use agent_pay_sentinel.Payments.{
  Row, World, Fault, and_then, put, moved, Services, noted, note, state_event, reported, change,
  move, set_state,
}

-- Two worlds with the same table and the same charges.
pub record Alike (v w : World) : Type 0 where
  pub rows : w.rows ≡ v.rows
  pub posts : w.posts ≡ v.posts

alike : (w : World) → Alike w w
alike w = record { rows = refl; posts = refl }

Result-cases : {E A : Type 0} (m : Result E A) → ((a : A) × (m ≡ ok a)) ⊎ ((e : E) × (m ≡ err e))
Result-cases (ok a) = inl (a, refl)
Result-cases (err e) = inr (e, refl)

-- The row goes along an arrow of the life cycle, or nothing is changed.
pub data Effect (id : String) (target : PaymentState) (reference detail : Option String)
    (v w : World) : Type 0 where
  unchanged : Alike v w → Effect id target reference detail v w
  changed :
      (r : Row)
      → lookup id v.rows ≡ some r
      → r.state ⟶ target
      → Alike (put id (moved r target reference detail) v) w
      → Effect id target reference detail v w

answered :
    {A : Type 0} (w : World) (target : PaymentState) (m : Result Fault A × World)
    → Alike w m.1
    → Alike w (and_then m (λ _ v. (ok target, v))).1
unfolding and_then
answered w target (ok a, v) h = h
answered w target (err e, v) h = h

module _ (env : Services) where
  pub note-Alike : (a : EventArgs) (w : World) → Alike w (note env a w).1
  unfolding note noted
  note-Alike a w = elim (Option-cases (record_event env.digest (env.outside w.tried) a w.log)) [
    | inl e ↦ rw e (record { rows = refl; posts = refl })
    | inr (p, e) ↦ rw e (record { rows = refl; posts = refl })
  ]

  reported-Alike :
      (target : PaymentState) (audit : Bool) (a : EventArgs) (w : World)
      → Alike w (reported env target audit a w).1
  unfolding reported
  reported-Alike target false a w = alike w
  reported-Alike target true a w = answered w target (note env a w) (note-Alike a w)

  pub set_state-Effect :
      (id : String) (target : PaymentState) (reference detail : Option String) (audit : Bool)
      (w : World)
      → Effect id target reference detail w (set_state env id target reference detail audit w).1
  unfolding set_state move change
  set_state-Effect id target reference detail audit w = elim (Option-cases (lookup id w.rows)) [
    | inl e ↦ rw e (unchanged (alike w))
    | inr (r, e) ↦ elim (Result-cases (assert_transition r.state target)) [
      | inl (u, k) ↦
          rw (e, k)
            (changed r e (accepted-⟶ r.state target k) (
              reported-Alike target audit (state_event env.strings id r target reference detail)
                (put id (moved r target reference detail) w)))
      | inr (x, k) ↦ rw (e, k) (unchanged (alike w))
    ]
  ]
