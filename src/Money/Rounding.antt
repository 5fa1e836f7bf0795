-- ===== src/Money/Rounding.antt =====
-- gateway/money.py: `to_minor_units` against the value of the decimal.
use native.Mathlib.Nat.{mod-lt, div-add-mod, pow-suc, one-le-pow}
use native.Mathlib.Numerals.{towards_suc}
use agent_pay_sentinel.Prelude.{ℕ, zero, suc, ◌+◌, ◌*◌, ◌^◌, ◌≤◌, ◌<◌, ◌≡◌, refl, false, arith, ap}
use agent_pay_sentinel.Money.{
  Decimal, up, down, pos, round_half_up, times_100, to_minor_units, numeric,
}

-- What `Money` lets through: an amount above zero with at most two decimal places.
pub data IsMoney : Decimal → Type 0 where
  whole :
      {d : ℕ} (n : ℕ) → 0 < d → IsMoney (record { negative = false; digits = d; exponent = up n })
  places :
      {d : ℕ} (n : ℕ)
      → 0 < d
      → n ≤ 2
      → IsMoney (record { negative = false; digits = d; exponent = down n })

-- The value of `d` is `m` hundredths, with nothing rounded.
abbrev pub Hundredths : Decimal → ℕ → Type 0
Hundredths d m = elim d.exponent [
  | up n ↦ m ≡ d.digits * 10 ^ n * 100
  | down n ↦ m * 10 ^ n ≡ d.digits * 100
]

pow-pos : (n : ℕ) → 0 < 10 ^ n
pow-pos n = one-le-pow n 10 (omega arith)

pow-add-two : (n : ℕ) → 10 ^ (n + 2) ≡ 10 ^ n * 100
pow-add-two n = simp towards_suc (omega (arith, pow-suc 10 n, pow-suc 10 (suc n)))

exact_places :
    (d n : ℕ)
    → 0 < d
    → n ≤ 2
    → let m = round_half_up d (times_100 (down n)) in (m * 10 ^ n ≡ d * 100) × (0 < m)
unfolding round_half_up times_100
exact_places d zero p q = omega arith
exact_places d (suc zero) p q = omega arith
exact_places d (suc (suc zero)) p q = ground arith
exact_places d (suc (suc (suc n))) p q = absurd (omega arith)

-- Money is converted exactly: the minor units are the value times 100, and positive.
pub to_minor_units_exact :
    (d : Decimal) → IsMoney d → (m : ℕ) × (to_minor_units d ≡ pos m) × Hundredths d m × (0 < m)
unfolding to_minor_units
to_minor_units_exact d (whole {d = k} n p) = (
  k * 10 ^ (n + 2),
  refl,
  omega (arith, ap (λ (t : ℕ). k * t) (pow-add-two n)),
  grind (arith, pow-pos),
)
to_minor_units_exact d (places {d = k} n p q) =
    let (exact, positive) = exact_places k n p q in
    (round_half_up k (times_100 (down n)), refl, exact, positive)

-- Any other number of decimal places is rounded to the nearest unit, a tie away from zero: `m` is
-- at most half a unit above the value, and less than half a unit below it.
pub round_half_up_nearest :
    (d n : ℕ)
    → let m = round_half_up d (down n) in
      (2 * m * 10 ^ n ≤ 2 * d + 10 ^ n) × (2 * d < 2 * m * 10 ^ n + 10 ^ n)
unfolding round_half_up
round_half_up_nearest d n = ground (arith, div-add-mod d (10 ^ n), mod-lt d (pow-pos n))

-- A `Numeric(12, 2)` column is converted to the hundredths that it holds.
pub to_minor_units-numeric : (n : ℕ) → to_minor_units (numeric n) ≡ pos n
unfolding to_minor_units numeric
to_minor_units-numeric n = ground arith
