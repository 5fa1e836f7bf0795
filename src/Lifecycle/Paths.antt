-- ===== src/Lifecycle/Paths.antt =====
-- gateway/payments.py: runs of the state machine.
use agent_pay_sentinel.Prelude.{
  ℕ, ◌+◌, ◌≤◌, ◌≡◌, refl, ◌⊎◌, inl, Bool, true, false, ◌&&◌, List, [], ◌∷◌, arith, length,
}
use agent_pay_sentinel.Result.{ok, err}
use agent_pay_sentinel.Lifecycle.{
  PaymentState, created, authorized, submitted, confirmed, failed, timeout, unknown, expired,
  member, assert_transition,
}

abbrev accepted : PaymentState → PaymentState → Bool
accepted s t = elim (assert_transition s t) [ ok _ ↦ true | err _ ↦ false ]

-- The states of `path` are taken one after the other, from `s` on.
unfoldable pub follows : PaymentState → List PaymentState → Bool
follows s [] = true
follows s (t ∷ path) = accepted s t && follows t path

unfoldable pub last : PaymentState → List PaymentState → PaymentState
last s [] = s
last s (t ∷ path) = last t path

rank : PaymentState → ℕ
rank created = 0
rank authorized = 1
rank submitted = 2
rank timeout = 3
rank unknown = 4
rank _ = 5

rank-accepted : (s t : PaymentState) → accepted s t ≡ true → rank s + 1 ≤ rank t
unfolding rank assert_transition
rank-accepted s t h = ground arith

rank-le : (s : PaymentState) → rank s ≤ 5
unfolding rank
rank-le s = ground arith

length-follows :
    (s : PaymentState) (path : List PaymentState) → follows s path ≡ true → length path + rank s ≤ 5
unfolding follows
length-follows s [] h = omega (arith, rank-le s)
length-follows s (t ∷ path) h = ground (arith, rank-accepted s t, length-follows t path)

-- No run of a new payment has more than five transitions: the machine has no cycle.
pub lifecycle_bounded : (path : List PaymentState) → follows created path ≡ true → length path ≤ 5
lifecycle_bounded path h = omega (arith, length-follows created path h)

-- Where a run can still be before the provider has been asked.
abbrev Early : PaymentState → Type 0
Early s = (s ≡ created) ⊎ (s ≡ authorized)

Early-accepted :
    (s t : PaymentState)
    → Early s
    → accepted s t ≡ true
    → (t ≡ authorized) ⊎ ((t ≡ submitted) ⊎ ((t ≡ failed) ⊎ (t ≡ expired)))
unfolding assert_transition
Early-accepted s t e h = ground arith

ended_follows :
    (s : PaymentState) (path : List PaymentState)
    → (s ≡ failed) ⊎ (s ≡ expired)
    → follows s path ≡ true
    → last s path ≡ s
unfolding follows last assert_transition
ended_follows s [] e h = refl
ended_follows s (t ∷ path) e h = ground arith

confirmed-submitted_of_Early :
    (s : PaymentState) (path : List PaymentState)
    → Early s
    → follows s path ≡ true
    → last s path ≡ confirmed
    → member submitted path ≡ true
unfolding follows last
confirmed-submitted_of_Early s [] e h l = ground arith
confirmed-submitted_of_Early s (t ∷ path) e h l =
    ground (arith, Early-accepted s t, ended_follows t path, confirmed-submitted_of_Early t path)

-- A payment is confirmed only by way of `SUBMITTED`: the provider was asked.
pub confirmed_after_submitted :
    (path : List PaymentState)
    → follows created path ≡ true
    → last created path ≡ confirmed
    → member submitted path ≡ true
confirmed_after_submitted path = confirmed-submitted_of_Early created path (inl refl)
