-- ===== src/Lifecycle/Edges.antt =====
-- gateway/payments.py: the transition table and the diagram at the top of the file.
use agent_pay_sentinel.Prelude.{◌≡◌, refl, ◌≢◌, ◌↔◌, true, arith}
use agent_pay_sentinel.Result.{ok}
use agent_pay_sentinel.Lifecycle.{
  PaymentState, created, authorized, submitted, confirmed, failed, timeout, unknown, expired,
  member, terminal, assert_transition,
}

-- The arrows of the diagram, and the two ways to `FAILED` that it leaves out: a block of a new
-- payment, and a failure of an authorized one.
infix 40 ◌⟶◌
pub data ◌⟶◌ : PaymentState → PaymentState → Type 0 where
  authorize : created ⟶ authorized
  submit : authorized ⟶ submitted
  expire : authorized ⟶ expired
  confirm : submitted ⟶ confirmed
  decline : submitted ⟶ failed
  lose : submitted ⟶ timeout
  park : timeout ⟶ unknown
  settle : unknown ⟶ confirmed
  void : unknown ⟶ failed
  block : created ⟶ failed
  cancel : authorized ⟶ failed

ruleset edges =
    (authorize, submit, expire, confirm, decline, lose, park, settle, void, block, cancel)

pub accepted-⟶ : (s t : PaymentState) → assert_transition s t ≡ ok tt → s ⟶ t
unfolding assert_transition
accepted-⟶ s t h = grind (arith, edges)

⟶-accepted : {s t : PaymentState} → s ⟶ t → assert_transition s t ≡ ok tt
unfolding assert_transition
⟶-accepted authorize = refl
⟶-accepted _ = refl

-- `assert_transition` accepts exactly the eleven arrows above, and raises at every other pair.
pub assert_transition_iff : (s t : PaymentState) → (assert_transition s t ≡ ok tt) ↔ (s ⟶ t)
assert_transition_iff s t = (accepted-⟶ s t, ⟶-accepted)

-- A state is in `TERMINAL` exactly when no transition out of it is accepted.
pub terminal_iff :
    (s : PaymentState)
    → (member s terminal ≡ true) ↔ ((t : PaymentState) → assert_transition s t ≢ ok tt)
unfolding assert_transition
terminal_iff s =
    (λ h t. ground arith, λ h. ground (arith, h authorized, h submitted, h confirmed, h unknown))
