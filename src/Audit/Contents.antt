-- ===== src/Audit/Contents.antt =====
-- gateway/audit.py: what an event says, whatever text it is hashed as. `json.dumps` with sorted keys
-- gives two objects one text exactly where they differ in the order of their keys at most.
use Prim.Native.String.{compare}
use Prim.Native.Nat.{Ordering}
use agent_pay_sentinel.Prelude.{ℕ, String, ◌≡◌, List, [], ◌∷◌}
use agent_pay_sentinel.Audit.{AuditEvent, Body, Digest, as_utc, body_of, canonical_timestamp}
use agent_pay_sentinel.Json.{
  Json, null, text, num, flag, arr, obj, Items, nil, cons, Fields, end, field,
}

put : String → Json → Fields → Fields
put k j end = field k j end
put k j (field k' j' f) = elim (compare k k') [
  | Ordering.gt ↦ field k' j' (put k j f)
  | _ ↦ field k j (field k' j' f)
]

mutual
  unfolding put

  in_order : Json → Json
  in_order null = null
  in_order (text s) = text s
  in_order (num n) = num n
  in_order (flag b) = flag b
  in_order (arr is) = arr (items_in_order is)
  in_order (obj f) = obj (sorted f)

  items_in_order : Items → Items
  items_in_order nil = nil
  items_in_order (cons j is) = cons (in_order j) (items_in_order is)

  -- the same object with its keys in order, at every depth
  pub sorted : Fields → Fields
  sorted end = end
  sorted (field k j f) = put k (in_order j) (sorted f)

-- Two bodies that say the same.
pub record SameBody (b b' : Body) : Type 0 where
  pub event_id : b.event_id ≡ b'.event_id
  pub event_type : b.event_type ≡ b'.event_type
  pub created_at : b.created_at ≡ b'.created_at
  pub payment_authorization_id : b.payment_authorization_id ≡ b'.payment_authorization_id
  pub user_id : b.user_id ≡ b'.user_id
  pub agent_id : b.agent_id ≡ b'.agent_id
  pub decision : b.decision ≡ b'.decision
  pub reason_codes : b.reason_codes ≡ b'.reason_codes
  pub risk : sorted b.risk ≡ sorted b'.risk
  pub policy_version : b.policy_version ≡ b'.policy_version
  pub payload : sorted b.payload ≡ sorted b'.payload

-- What `json.dumps` and `isoformat` document: the text of a value determines the value.
pub record Determines (d : Digest) : Type 0 where
  pub body : (b b' : Body) → d.dumps b ≡ d.dumps b' → SameBody b b'
  pub instant : (s t : ℕ) → d.isoformat s ≡ d.isoformat t → s ≡ t

-- Two rows that say the same of the same instant: all columns but `seq` and the hashes.
pub record SameEvent (e e' : AuditEvent) : Type 0 where
  pub event_id : e.event_id ≡ e'.event_id
  pub event_type : e.event_type ≡ e'.event_type
  pub created_at : as_utc e.created_at ≡ as_utc e'.created_at
  pub payment_authorization_id : e.payment_authorization_id ≡ e'.payment_authorization_id
  pub user_id : e.user_id ≡ e'.user_id
  pub agent_id : e.agent_id ≡ e'.agent_id
  pub decision : e.decision ≡ e'.decision
  pub reason_codes : e.reason_codes ≡ e'.reason_codes
  pub risk : sorted e.risk ≡ sorted e'.risk
  pub policy_version : e.policy_version ≡ e'.policy_version
  pub payload : sorted e.payload ≡ sorted e'.payload

-- row by row, with as many rows
abbrev pub SameEvents : List AuditEvent → List AuditEvent → Type 0
SameEvents [] [] = Unit
SameEvents (e ∷ es) (e' ∷ es') = SameEvent e e' × SameEvents es es'
SameEvents _ _ = ⊥

pub hashed-SameEvent :
    (d : Digest) (e e' : AuditEvent)
    → Determines d
    → d.dumps (body_of d e) ≡ d.dumps (body_of d e')
    → SameEvent e e'
unfolding body_of canonical_timestamp
hashed-SameEvent d e e' reads h =
    let s = reads.body (body_of d e) (body_of d e') h in
    record {
      event_id = s.event_id;
      event_type = s.event_type;
      created_at = reads.instant (as_utc e.created_at) (as_utc e'.created_at) s.created_at;
      payment_authorization_id = s.payment_authorization_id;
      user_id = s.user_id;
      agent_id = s.agent_id;
      decision = s.decision;
      reason_codes = s.reason_codes;
      risk = s.risk;
      policy_version = s.policy_version;
      payload = s.payload;
    }
