-- ===== src/Clock.antt =====
-- Time: `time.time()` and `datetime.now(timezone.utc)` as whole microseconds since the epoch, the
-- precision of Python's datetime. Each reading is an argument of the function that makes it.
use agent_pay_sentinel.Prelude.{ℕ, ◌*◌}

abbrev pub second : ℕ
second = 1000000

abbrev pub seconds : ℕ → ℕ
seconds n = n * second
