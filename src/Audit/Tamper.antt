-- ===== src/Audit/Tamper.antt =====
-- gateway/audit.py: two chains with one head.
use agent_pay_sentinel.Prelude.{String, ◌≡◌, ◌≢◌}
use agent_pay_sentinel.Audit.{Digest}

-- Two texts with one digest.
pub record Collision (d : Digest) : Type 0 where
  pub left : String
  pub right : String
  pub differ : left ≢ right
  pub meet : d.sha256 left ≡ d.sha256 right
