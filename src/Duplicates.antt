-- ===== src/Duplicates.antt =====
-- Duplicate detection, gateway/payments.py: an honest retry, a conflict, or something new.
pub mod Replay
use agent_pay_sentinel.Prelude.{
  ℕ, ◌*◌, String, ◌<>◌, ◌==◌, Bool, true, false, Option, none, some, not, if◌then◌else◌,
}
use agent_pay_sentinel.Canonical.{CanonicalTransaction}
use agent_pay_sentinel.Pdp.{DuplicateFinding}
use agent_pay_sentinel.Schemas.{DecisionResponse}
use agent_pay_sentinel.Store.{Store, get, set}
use agent_pay_sentinel.Values.{Value, text, outcome, approval}

-- `f"agentpay:idem:{user_id}:{idempotency_key}"`
unfoldable pub idem_key : String → String → String
idem_key user_id idempotency_key = "agentpay:idem:" <> (user_id <> (":" <> idempotency_key))

-- `f"agentpay:fp:{fingerprint}"`
unfoldable pub fingerprint_key : String → String
fingerprint_key fingerprint = "agentpay:fp:" <> fingerprint

pub record IdempotencyOutcome : Type 0 where
  pub finding : DuplicateFinding
  pub replay_response : Option DecisionResponse

abbrev pub is_replay : IdempotencyOutcome → Bool
is_replay o = is_some o.replay_response
  where
    is_some : Option DecisionResponse → Bool
    is_some none = false
    is_some (some r) = true

abbrev pub is_conflict : IdempotencyOutcome → Bool
is_conflict o = if o.finding.idempotency_conflict then true else o.finding.fingerprint_conflict

abbrev pub no_duplicate : DuplicateFinding
no_duplicate = record { idempotency_conflict = false; fingerprint_conflict = false; detail = "" }

abbrev pub reused : IdempotencyOutcome
reused = record {
  finding = record {
    idempotency_conflict = true;
    fingerprint_conflict = false;
    detail = "idempotency key reused with a different payload";
  };
  replay_response = none;
}

abbrev pub seen_before : String → IdempotencyOutcome
seen_before pa_id = record {
  finding = record {
    idempotency_conflict = false;
    fingerprint_conflict = true;
    detail = "identical transaction already seen in this window (" <> (pa_id <> ")");
  };
  replay_response = none;
}

abbrev pub brand_new : IdempotencyOutcome
brand_new = record { finding = no_duplicate; replay_response = none }

abbrev pub replay : DecisionResponse → IdempotencyOutcome
replay r = record {
  finding = record no_duplicate { detail = "idempotent_replay" };
  replay_response = some r;
}

-- The answer that the value under the idempotency key decides, if it does. A text is no JSON record
-- of the code's own making, and an approval record has no `payload_hash`.
unfoldable pub from_record : String → Option Value → Option IdempotencyOutcome
from_record payload_hash none = none
from_record payload_hash (some (text s)) = if s == "" then none else some reused
from_record payload_hash (some (outcome h r)) =
    some (if h == payload_hash then replay r else reused)
from_record payload_hash (some (approval r)) = some reused

-- What the value under the fingerprint's key decides.
unfoldable pub from_fingerprint : String → Option Value → IdempotencyOutcome
from_fingerprint pa_id none = brand_new
from_fingerprint pa_id (some (text s)) =
    if s == "" then brand_new else if s == pa_id then brand_new else seen_before s
from_fingerprint pa_id (some (outcome h r)) = brand_new
from_fingerprint pa_id (some (approval r)) = brand_new

unfoldable pub then_fingerprint :
    CanonicalTransaction
    → ℕ
    → Option IdempotencyOutcome
    → Store Value
    → IdempotencyOutcome × Store Value
unfolding fingerprint_key
then_fingerprint txn now (some o) s = (o, s)
then_fingerprint txn now none s =
    let (seen, s') = get (fingerprint_key txn.fingerprint) now s in
    (from_fingerprint txn.payment_authorization_id seen, s')

unfoldable pub check_duplicate :
    CanonicalTransaction → ℕ → Store Value → IdempotencyOutcome × Store Value
unfolding from_record then_fingerprint idem_key
check_duplicate txn now s =
    let (raw, s') = get (idem_key txn.user_id txn.idempotency_key) now s in
    then_fingerprint txn now (from_record txn.payload_hash raw) s'

-- `Settings.idempotency_ttl_seconds` and `fingerprint_window_seconds`
pub record Lifetimes : Type 0 where
  pub idempotency_ttl_seconds : ℕ
  pub fingerprint_window_seconds : ℕ

unfoldable pub remember_outcome :
    Lifetimes → CanonicalTransaction → DecisionResponse → Bool → ℕ → Store Value → Store Value
unfolding idem_key fingerprint_key
remember_outcome l txn response reserve_fingerprint now s =
    let s' =
      set (idem_key txn.user_id txn.idempotency_key) (outcome txn.payload_hash response)
        (some l.idempotency_ttl_seconds) now s in
    if reserve_fingerprint
    then set (fingerprint_key txn.fingerprint) (text txn.payment_authorization_id)
        (some (l.fingerprint_window_seconds * 2)) now s'
    else s'
