-- ===== src/Lifecycle.antt =====
-- The payment state machine: `PaymentState` of gateway/schemas.py, and `VALID_TRANSITIONS`,
-- `TERMINAL` and `assert_transition` of gateway/payments.py.
pub mod Edges
pub mod Paths
use agent_pay_sentinel.Prelude.{◌≡◌, Bool, true, false, ◌||◌, List, [], ◌∷◌, if◌then◌else◌}
use agent_pay_sentinel.Result.{Result, ok, err}

pub data PaymentState : Type 0 where
  created authorized submitted confirmed failed timeout unknown expired : PaymentState

pub PaymentState-discrete : Discrete PaymentState
PaymentState-discrete = hlevel

-- `==` on the members of the enumeration
abbrev pub same : PaymentState → PaymentState → Bool
same created created = true
same authorized authorized = true
same submitted submitted = true
same confirmed confirmed = true
same failed failed = true
same timeout timeout = true
same unknown unknown = true
same expired expired = true
same _ _ = false

abbrev pub member : PaymentState → List PaymentState → Bool
member s [] = false
member s (t ∷ ts) = same s t || member s ts

unfoldable pub valid_transitions : PaymentState → List PaymentState
valid_transitions created = authorized ∷ failed ∷ []
valid_transitions authorized = submitted ∷ expired ∷ failed ∷ []
valid_transitions submitted = confirmed ∷ failed ∷ timeout ∷ []
valid_transitions timeout = unknown ∷ []
valid_transitions unknown = confirmed ∷ failed ∷ []
valid_transitions confirmed = []
valid_transitions failed = []
valid_transitions expired = []

abbrev pub terminal : List PaymentState
terminal = confirmed ∷ failed ∷ expired ∷ []

pub data InvalidTransition : Type 0 where
  illegal : PaymentState → PaymentState → InvalidTransition

unfoldable pub assert_transition : PaymentState → PaymentState → Result InvalidTransition (Unit {0})
unfolding valid_transitions
assert_transition current target =
    if member target (valid_transitions current) then ok tt else err (illegal current target)
