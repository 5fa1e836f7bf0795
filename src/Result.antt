-- ===== src/Result.antt =====
-- Outcomes of Python calls that may raise: the exception that left the call, or the value.
use mathlib.Core.Path.{◌≡◌, refl}

pub data Result {ℓ κ} (Raised : Type κ) (Value : Type ℓ) : Type (ℓ ⊔ κ) where
  err : Raised → Result Raised Value
  ok : Value → Result Raised Value

-- What follows a call, given its value.
infixl 5 ◌>>=◌
abbrev pub ◌>>=◌ {ℓ κ} :
    {X : Type 0} {V : Type ℓ} {W : Type κ} → Result X V → (V → Result X W) → Result X W
call >>= next = elim call [ err x ↦ err x | ok v ↦ next v ]

-- What follows a check, which has no value.
infixl 5 ◌>>◌
abbrev pub ◌>>◌ {ℓ} : {X : Type 0} {W : Type ℓ} → Result X (Unit {0}) → Result X W → Result X W
check >> next = elim check [ err x ↦ err x | ok _ ↦ next ]

-- A chain of calls that came to a value did so call by call.
pub value_passed {ℓ κ} :
    {X : Type 0} {V : Type ℓ} {W : Type κ} {w : W} (next : V → Result X W) (call : Result X V)
    → (call >>= next) ≡ ok w
    → (v : V) × (call ≡ ok v) × (next v ≡ ok w)
value_passed next (err x) h = cc
value_passed next (ok v) h = (v, refl, h)

pub check_passed {ℓ} :
    {X : Type 0} {W : Type ℓ} {w : W} (next : Result X W) (check : Result X (Unit {0}))
    → (check >> next) ≡ ok w
    → (check ≡ ok tt) × (next ≡ ok w)
check_passed next (err x) h = cc
check_passed next (ok _) h = (refl, h)
