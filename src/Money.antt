-- ===== src/Money.antt =====
-- Money as integer minor units, gateway/money.py. A `Decimal` is a sign, a coefficient and a power
-- of ten; the infinities and NaN are left out, which `Money` of gateway/schemas.py refuses. The
-- product with 100 is exact below the 28 digits of Python's default context.
pub mod Rounding
use agent_pay_sentinel.Prelude.{
  ℕ, zero, suc, ◌+◌, ◌*◌, ◌/◌, ◌%◌, ◌^◌, String, Bool, true, false, leb, if◌then◌else◌,
}

-- The coefficient times `10 ^ n`, or divided by it.
pub data Exponent : Type 0 where
  up down : ℕ → Exponent

pub record Decimal : Type 0 where
  pub negative : Bool
  pub digits : ℕ
  pub exponent : Exponent

-- times `MINOR_UNIT_SCALE`, which is `Decimal(100)`
unfoldable pub times_100 : Exponent → Exponent
times_100 (up n) = up (n + 2)
times_100 (down zero) = up 2
times_100 (down (suc zero)) = up 1
times_100 (down (suc (suc n))) = down n

-- `to_integral_value(rounding=ROUND_HALF_UP)` of the absolute value: a tie goes away from zero
unfoldable pub round_half_up : ℕ → Exponent → ℕ
round_half_up digits (up n) = digits * 10 ^ n
round_half_up digits (down n) =
    digits / 10 ^ n + (if leb (10 ^ n) (2 * (digits % 10 ^ n)) then 1 else 0)

-- Python's `int`
pub data ℤ : Type 0 where
  pos : ℕ → ℤ
  negsuc : ℕ → ℤ

signed : Bool → ℕ → ℤ
signed true (suc n) = negsuc n
signed _ n = pos n

unfoldable pub to_minor_units : Decimal → ℤ
unfolding signed round_half_up times_100
to_minor_units value = signed value.negative (round_half_up value.digits (times_100 value.exponent))

-- What is read from a `Numeric(12, 2)` column that holds so many hundredths.
unfoldable pub numeric : ℕ → Decimal
numeric hundredths = record { negative = false; digits = hundredths; exponent = down 2 }
