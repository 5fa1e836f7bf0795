-- ===== src/Linking/Calls.antt =====
-- control_plane/telegram.py: sequences of calls, and the tables that they leave.
use agent_pay_sentinel.Prelude.{ℕ, String, List, [], ◌∷◌}
use agent_pay_sentinel.Linking.{Methods, LinkTables, issue_code, redeem_code, unlink_user}

pub data Call : Type 0 where
  issue : (code : String) (now : ℕ) (user_id : String) → Call
  redeem : (code telegram_id : String) (now : ℕ) → Call
  unlink : (user_id : String) → Call

unfoldable pub after : Methods → Call → LinkTables → LinkTables
after py (issue code now user_id) t = (issue_code code now user_id t).1
after py (redeem code telegram_id now) t = (redeem_code py code telegram_id now t).1
after py (unlink user_id) t = (unlink_user user_id t).1

unfoldable pub after_all : Methods → List Call → LinkTables → LinkTables
after_all py [] t = t
after_all py (c ∷ cs) t = after_all py cs (after py c t)
