-- ===== src/Canonical/Bucket.antt =====
-- gateway/canonical.py: the time bucket of a fingerprint.
use native.Mathlib.Nat.{le-div_iff_mul-le, div-lt_iff_lt-mul, div-mul-le_self, lt-div-mul-add}
use agent_pay_sentinel.Prelude.{ℕ, ◌+◌, ◌/◌, ◌≤◌, ◌<◌, arith}
use agent_pay_sentinel.Clock.{seconds}
use agent_pay_sentinel.Canonical.{bucket}

-- Two times that are less than a window apart fall into one bucket or into two that follow one
-- another, so an identical transaction is missed only across one boundary.
pub bucket_near :
    (t u window : ℕ)
    → 0 < window
    → t ≤ u
    → u < t + seconds window
    → (bucket t window ≤ bucket u window) × (bucket u window ≤ bucket t window + 1)
unfolding bucket
bucket_near t u window p h k =
    let positive : 0 < seconds window = omega arith in
    let lower : t / seconds window ≤ u / seconds window =
      (le-div_iff_mul-le positive).1 (omega (arith, div-mul-le_self t (seconds window))) in
    let upper : u / seconds window < t / seconds window + 2 =
      (div-lt_iff_lt-mul positive).1 (omega (arith, lt-div-mul-add {a = t} positive)) in
    (lower, omega arith)
