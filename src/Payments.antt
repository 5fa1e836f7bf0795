-- ===== src/Payments.antt =====
-- The payment authorization service, gateway/payments.py, on the table `transactions` of
-- gateway/models.py: the state of a payment, and every change of it with its audit event.
pub mod Submission
pub mod Recovery
pub mod Effects
pub mod Steady
pub mod Moves
pub mod Once
pub mod Outcome
pub mod Unique
use agent_pay_sentinel.Prelude.{
  ℕ, suc, String, ◌<>◌, ◌==◌, Bool, true, false, ◌&&◌, not, Option, none, some, List, [], ◌∷◌, Dict,
  lookup, insert, if◌then◌else◌,
}
use agent_pay_sentinel.Audit.{AuditEvent, EventArgs, Outside, Digest, record_event}
use agent_pay_sentinel.Bearer.{Strings}
use agent_pay_sentinel.Canonical.{CanonicalTransaction}
use agent_pay_sentinel.Json.{Fields, field, end, text, flag, optional}
use agent_pay_sentinel.Lifecycle.{
  PaymentState, authorized, confirmed, same, InvalidTransition, assert_transition,
}
use agent_pay_sentinel.Money.{Decimal}
use agent_pay_sentinel.Result.{Result, ok, err}
use agent_pay_sentinel.Schemas.{Decision, block, RiskAssessment, state_value}
use agent_pay_sentinel.Tokens.{Jwt, IssuedToken, issue_authorization_token}

-- A row of `transactions`; `token_expires_at` is in seconds. Two columns are left out that nothing
-- here reads: `stored_response`, which is never written, and `updated_at`.
pub record Row : Type 0 where
  pub idempotency_key : String
  pub payload_hash : String
  pub fingerprint : String
  pub user_id : String
  pub agent_id : String
  pub delegation_id : String
  pub merchant_id : String
  pub amount : Decimal
  pub currency : String
  pub cart_hash : String
  pub decision : Decision
  pub reason_codes : List String
  pub state : PaymentState
  pub risk : RiskAssessment
  pub policy_version : String
  pub token_jti : Option String
  pub token_uses : ℕ
  pub token_expires_at : Option ℕ
  pub provider_reference : Option String
  pub provider_detail : Option String
  pub created_at : ℕ

-- A charge that is posted to the provider, with the bearer token it carries.
pub record Charge : Type 0 where
  pub payment_authorization_id : String
  pub idempotency_key : String
  pub amount : Decimal
  pub currency : String
  pub merchant_id : String
  pub cart_hash : String
  pub token : String

-- The table, keyed by `payment_authorization_id`, the audit log, the number of audit events tried so
-- far, and the charges posted so far, the latest first.
pub record World : Type 0 where
  pub rows : Dict Row
  pub log : List AuditEvent
  pub tried : ℕ
  pub posts : List Charge

-- The exceptions that leave these operations.
pub data Fault : Type 0 where
  key_error : String → Fault
  invalid_transition : InvalidTransition → Fault
  integrity_error : String → Fault
  lock_timeout : Fault
  bad_json : Fault

abbrev pub Run : Type 0 → Type 0
Run A = World → Result Fault A × World

-- One call after another: an exception ends both, and what was committed stays.
unfoldable pub and_then :
    {A B : Type 0} → Result Fault A × World → (A → Run B) → Result Fault B × World
and_then (ok a, w) f = f a w
and_then (err e, w) f = (err e, w)

-- `if provider_reference:`, `if detail:`
abbrev pub kept : Option String → Option String → Option String
kept none old = old
kept (some s) old = if s == "" then old else some s

unfoldable pub is_block : Decision → Bool
is_block block = true
is_block _ = false

-- A row that stands in the partial unique index `uq_user_idempotency_authorized` under this key.
unfoldable pub indexed : String → String → Dict Row → Bool
unfolding is_block
indexed user_id key [] = false
indexed user_id key ((id, r) ∷ rows) =
    if r.user_id == user_id && (r.idempotency_key == key && not (is_block r.decision))
    then true
    else indexed user_id key rows

abbrev pub jti_of : Option IssuedToken → Option String
jti_of none = none
jti_of (some t) = some t.jti

abbrev pub expiry_of : Option IssuedToken → Option ℕ
expiry_of none = none
expiry_of (some t) = some t.expires_at

abbrev pub row_of :
    CanonicalTransaction
    → Decision
    → List String
    → PaymentState
    → RiskAssessment
    → String
    → Option IssuedToken
    → ℕ
    → Row
row_of txn decision reason_codes state risk policy_version token now = record {
  idempotency_key = txn.idempotency_key;
  payload_hash = txn.payload_hash;
  fingerprint = txn.fingerprint;
  user_id = txn.user_id;
  agent_id = txn.agent_id;
  delegation_id = txn.delegation_id;
  merchant_id = txn.merchant_id;
  amount = txn.amount;
  currency = txn.currency;
  cart_hash = txn.cart_hash;
  decision = decision;
  reason_codes = reason_codes;
  state = state;
  risk = risk;
  policy_version = policy_version;
  token_jti = jti_of token;
  token_uses = 0;
  token_expires_at = expiry_of token;
  provider_reference = none;
  provider_detail = none;
  created_at = now;
}

-- The primary key and the partial index refuse a second row.
unfoldable pub insert_row :
    String → Row → Bool → World → Option Row → Result Fault (Unit {0}) × World
insert_row id r taken w (some q) = (err (integrity_error id), w)
insert_row id r taken w none =
    if taken
    then (err (integrity_error r.idempotency_key), w)
    else (ok tt, record w { rows = insert id r w.rows })

unfoldable pub persist_transaction :
    CanonicalTransaction
    → Decision
    → List String
    → PaymentState
    → RiskAssessment
    → String
    → Option IssuedToken
    → ℕ
    → Run (Unit {0})
unfolding insert_row indexed is_block
persist_transaction txn decision reason_codes state risk policy_version token now w =
    let id = txn.payment_authorization_id in
    insert_row id (row_of txn decision reason_codes state risk policy_version token now)
      (not (is_block decision) && indexed txn.user_id txn.idempotency_key w.rows) w
      (lookup id w.rows)

abbrev pub put : String → Row → World → World
put id r w = record w { rows = insert id r w.rows }

abbrev pub moved : Row → PaymentState → Option String → Option String → Row
moved r target reference detail = record r {
  state = target;
  provider_reference = kept reference r.provider_reference;
  provider_detail = kept detail r.provider_detail;
}

-- `lower` is `str.lower` of an upper-case name of a state.
abbrev pub state_event :
    Strings → String → Row → PaymentState → Option String → Option String → EventArgs
state_event py id r target reference detail = record {
  event_type = "payment." <> py.lower (state_value target);
  payload = field "from" (text (state_value r.state)) (
      field "to" (text (state_value target)) (
        field "provider_reference" (optional reference)
          (field "detail" (optional detail) (field "settled" (flag (same target confirmed)) end))));
  payment_authorization_id = some id;
  user_id = some r.user_id;
  agent_id = some r.agent_id;
  decision = none;
  reason_codes = ("STATE_" <> (state_value r.state <> ("_TO_" <> state_value target))) ∷ [];
  risk = end;
  policy_version = some r.policy_version;
}

-- What the code calls outside, and `outside n` is what its n-th audit event reads from there.
pub record Services : Type 0 where
  pub digest : Digest
  pub strings : Strings
  pub outside : ℕ → Outside
  pub jwt : Jwt
  pub token_ttl_seconds : ℕ
  -- `text[:200]`
  pub cut : String → String

module _ (env : Services) where
  unfoldable pub noted :
      World → Option ((String × String) × List AuditEvent) → Result Fault (String × String) × World
  noted w none = (err lock_timeout, record w { tried = suc w.tried })
  noted w (some (answer, log)) = (ok answer, record w { tried = suc w.tried; log = log })

  -- `record_event` on the world.
  unfoldable pub note : EventArgs → Run (String × String)
  unfolding noted
  note a w = noted w (record_event env.digest (env.outside w.tried) a w.log)

  -- The event of a change that is committed.
  unfoldable pub reported : PaymentState → Bool → EventArgs → Run PaymentState
  unfolding note
  reported target true a w = and_then (note a w) (λ _ v. (ok target, v))
  reported target false a w = (ok target, w)

  unfoldable pub change :
      String
      → Row
      → PaymentState
      → Option String
      → Option String
      → Bool
      → World
      → Result InvalidTransition (Unit {0})
      → Result Fault PaymentState × World
  unfolding reported
  change id r target reference detail audit w (err e) = (err (invalid_transition e), w)
  change id r target reference detail audit w (ok _) =
      reported target audit (state_event env.strings id r target reference detail)
        (put id (moved r target reference detail) w)

  unfoldable pub move :
      String
      → PaymentState
      → Option String
      → Option String
      → Bool
      → World
      → Option Row
      → Result Fault PaymentState × World
  unfolding change
  move id target reference detail audit w none = (err (key_error id), w)
  move id target reference detail audit w (some r) =
      change id r target reference detail audit w (assert_transition r.state target)

  unfoldable pub set_state :
      String → PaymentState → Option String → Option String → Bool → Run PaymentState
  unfolding move
  set_state id target reference detail audit w =
      move id target reference detail audit w (lookup id w.rows)

  -- `row.token_jti = ...; row.token_expires_at = ...`, when there is a row
  unfoldable pub with_token : String → IssuedToken → World → Option Row → World
  with_token id t w none = w
  with_token id t w (some r) =
      put id (record r { token_jti = some t.jti; token_expires_at = some t.expires_at }) w

  unfoldable pub token_for : CanonicalTransaction → String → ℕ → String → IssuedToken
  token_for txn policy_version now fresh =
      issue_authorization_token env.jwt
        (record {
          payment_authorization_id = txn.payment_authorization_id;
          user_id = txn.user_id;
          agent_id = txn.agent_id;
          merchant_id = txn.merchant_id;
          amount = txn.amount;
          currency = txn.currency;
          cart_hash = txn.cart_hash;
          policy_version = policy_version;
        })
        none env.token_ttl_seconds now fresh

  unfoldable pub authorize : CanonicalTransaction → String → ℕ → String → Run IssuedToken
  unfolding set_state with_token token_for and_then
  authorize txn policy_version now fresh w =
      let id = txn.payment_authorization_id in
      let t = token_for txn policy_version now fresh in
      and_then (set_state id authorized none none true (with_token id t w (lookup id w.rows)))
        (λ _ v. (ok t, v))
