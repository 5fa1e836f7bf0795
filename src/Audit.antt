-- ===== src/Audit.antt =====
-- The hash-chained audit log, gateway/audit.py. The log is the table `audit_events` in the order of
-- `seq`. SHA-256, `json.dumps` on an event body and `isoformat` are the library's: arguments. So is
-- whether the lock on the chain is taken: what `DistributedLock` writes to the shared store while it is
-- held is Store/Lock's, and not in this state.
pub mod Chain
pub mod Append
pub mod Contents
pub mod Tamper
use agent_pay_sentinel.Prelude.{
  ℕ, suc, ◌+◌, ◌-◌, String, ◌<>◌, Bool, true, false, ◌&&◌, Option, none, some, List, [], ◌∷◌, ◌++◌,
  length, take, ltb, ◌==◌, if◌then◌else◌,
}
use agent_pay_sentinel.Json.{Json, Fields, end}

-- A datetime: the wall clock in microseconds, and its distance from UTC unless it is naive.
pub data Zone : Type 0 where
  east west : ℕ → Zone

pub record DateTime : Type 0 where
  pub wall : ℕ
  pub tzinfo : Option Zone

abbrev pub utc : Zone
utc = east 0

-- `dt.astimezone(timezone.utc)`, a naive datetime taken as UTC
unfoldable pub as_utc : DateTime → ℕ
as_utc dt = elim dt.tzinfo [
  | none ↦ dt.wall
  | some z ↦ elim z [ east d ↦ dt.wall - d | west d ↦ dt.wall + d ]
]

-- The fields that are hashed.
pub record Body : Type 0 where
  pub event_id : String
  pub event_type : String
  pub created_at : String
  pub payment_authorization_id : Option String
  pub user_id : Option String
  pub agent_id : Option String
  pub decision : Option String
  pub reason_codes : List String
  pub risk : Fields
  pub policy_version : Option String
  pub payload : Fields

-- A row of `audit_events`.
pub record AuditEvent : Type 0 where
  pub seq : ℕ
  pub event_id : String
  pub event_type : String
  pub payment_authorization_id : Option String
  pub user_id : Option String
  pub agent_id : Option String
  pub decision : Option String
  pub reason_codes : List String
  pub risk : Fields
  pub policy_version : Option String
  pub payload : Fields
  pub prev_hash : String
  pub event_hash : String
  pub created_at : DateTime

-- The arguments of `record_event`; a `none` in `policy_version` is an argument left out.
pub record EventArgs : Type 0 where
  pub event_type : String
  pub payload : Fields
  pub payment_authorization_id : Option String
  pub user_id : Option String
  pub agent_id : Option String
  pub decision : Option String
  pub reason_codes : List String
  pub risk : Fields
  pub policy_version : Option String

-- What a call of `record_event` reads from outside: the `uuid4`, the clock, the policy version of
-- the settings, and whether the lock on the chain could be taken.
pub record Outside : Type 0 where
  pub event_id : String
  pub now : ℕ
  pub settings_policy_version : String
  pub locked : Bool

abbrev pub genesis_hash : String
genesis_hash = "0000000000000000000000000000000000000000000000000000000000000000"

-- `x or y` on texts
abbrev pub or_text : Option String → String → String
or_text none y = y
or_text (some x) y = if x == "" then y else x

unfoldable pub last_hash : List AuditEvent → Option String
last_hash [] = none
last_hash (e ∷ []) = some e.event_hash
last_hash (e ∷ f ∷ es) = last_hash (f ∷ es)

last_seq : List AuditEvent → ℕ
last_seq [] = 0
last_seq (e ∷ []) = e.seq
last_seq (e ∷ f ∷ es) = last_seq (f ∷ es)

pub data Verdict : Type 0 where
  -- the number of events checked, and the head
  valid : ℕ → String → Verdict
  -- the number of events, the broken `seq` and event, the expected and the stored hash
  broken : ℕ → ℕ → String → String → String → Verdict

-- `if limit:` takes no limit and the limit 0 alike.
abbrev pub limited : Option ℕ → List AuditEvent → List AuditEvent
limited none es = es
limited (some n) es = if ltb 0 n then take n es else es

unfoldable pub chain_head : List AuditEvent → ℕ × String
unfolding last_hash
chain_head log = (length log, or_text (last_hash log) genesis_hash)

pub record Digest : Type 0 where
  pub sha256 : String → String
  pub dumps : Body → String
  pub isoformat : ℕ → String

module _ (d : Digest) where
  unfoldable pub canonical_timestamp : DateTime → String
  unfolding as_utc
  canonical_timestamp dt = d.isoformat (as_utc dt)

  unfoldable pub compute_hash : Body → String → String
  compute_hash body prev_hash = d.sha256 (d.dumps body <> prev_hash)

  -- `_body(...)` on the columns of a row
  unfoldable pub body_of : AuditEvent → Body
  body_of e = record {
    event_id = e.event_id;
    event_type = e.event_type;
    created_at = canonical_timestamp e.created_at;
    payment_authorization_id = e.payment_authorization_id;
    user_id = e.user_id;
    agent_id = e.agent_id;
    decision = e.decision;
    reason_codes = e.reason_codes;
    risk = e.risk;
    policy_version = e.policy_version;
    payload = e.payload;
  }

  new_event : Outside → EventArgs → ℕ → String → AuditEvent
  unfolding body_of
  new_event o a seq prev_hash =
      let e : AuditEvent = record {
        seq = seq;
        event_id = o.event_id;
        event_type = a.event_type;
        payment_authorization_id = a.payment_authorization_id;
        user_id = a.user_id;
        agent_id = a.agent_id;
        decision = a.decision;
        reason_codes = a.reason_codes;
        risk = a.risk;
        policy_version = some (or_text a.policy_version o.settings_policy_version);
        payload = a.payload;
        prev_hash = prev_hash;
        event_hash = "";
        created_at = record { wall = o.now; tzinfo = some utc };
      } in
      record e { event_hash = compute_hash (body_of e) prev_hash }

  -- The event id and hash, with the longer log; `none` is the `TimeoutError` of the lock.
  unfoldable pub record_event :
      Outside → EventArgs → List AuditEvent → Option ((String × String) × List AuditEvent)
  unfolding new_event last_hash last_seq
  record_event o a log =
      let prev_hash = or_text (last_hash log) genesis_hash in
      let e = new_event o a (last_seq log + 1) prev_hash in
      if o.locked then some ((e.event_id, e.event_hash), log ++ e ∷ []) else none

  -- The loop of `verify_chain` over the events still to come; `n` counts all of them.
  unfoldable pub walk : ℕ → String → List AuditEvent → Verdict
  walk n prev_hash [] = valid n prev_hash
  walk n prev_hash (e ∷ es) =
      let rest = walk n e.event_hash es in
      let expected = compute_hash (body_of e) prev_hash in
      if e.prev_hash == prev_hash && e.event_hash == expected
      then rest
      else broken n e.seq e.event_id expected e.event_hash

  unfoldable pub verify_chain : Option ℕ → List AuditEvent → Verdict
  unfolding walk
  verify_chain limit log =
      let events = limited limit log in walk (length events) genesis_hash events
