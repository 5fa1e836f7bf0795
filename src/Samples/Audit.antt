-- ===== src/Samples/Audit.antt =====
-- The theorems about the audit chain and its anchors at a chain of one event and of two.
use agent_pay_sentinel.Prelude.{
  String, ◌≡◌, refl, ◌↔◌, true, false, none, some, [], ◌∷◌, arith, ne_of_eq-false,
}
use agent_pay_sentinel.Audit.{
  AuditEvent, EventArgs, valid, genesis_hash, compute_hash, record_event, verify_chain, chain_head,
  walk, utc, body_of,
}
use agent_pay_sentinel.Audit.Append.{HexDigest, record_event-Linked}
use agent_pay_sentinel.Audit.Chain.{
  head_from, Linked, Break, verify_chain-valid_iff, verify_chain-Break,
}
use agent_pay_sentinel.Checkpoint.{
  Anchors, Comparison, compared, verify_against_checkpoints, audit_verify,
}
use agent_pay_sentinel.Checkpoint.Anchor.{Matches, growth-Matches, empty_anchor_alarm}
use agent_pay_sentinel.Json.{end, field, null}
use agent_pay_sentinel.Samples.Encoded.{encoded}
use agent_pay_sentinel.Samples.{digest, outside, ones}

abbrev event : AuditEvent
event = record {
  seq = 1;
  event_id = "evt";
  event_type = "payment.authorized";
  payment_authorization_id = some "pa_1";
  user_id = none;
  agent_id = none;
  decision = none;
  reason_codes = [];
  risk = end;
  policy_version = none;
  payload = end;
  prev_hash = genesis_hash;
  event_hash = ones;
  created_at = record { wall = 0; tzinfo = some utc };
}

-- The event after it, and one that does not follow.
abbrev second_event : AuditEvent
second_event = record event { seq = 2; prev_hash = ones }

abbrev args : EventArgs
args = record {
  event_type = "payment.submitted";
  payload = end;
  payment_authorization_id = none;
  user_id = none;
  agent_id = none;
  decision = none;
  reason_codes = [];
  risk = end;
  policy_version = none;
}

abbrev store : Anchors
store = record { configured = true; rows = [] }

hex : HexDigest digest
hex x = refl

linked : Linked digest genesis_hash (event ∷ [])
unfolding compute_hash
linked = ((refl, refl), tt)

verify_chain-valid_iff_example :
    (verify_chain digest none (event ∷ second_event ∷ [])
      ≡ valid 2 (head_from genesis_hash (event ∷ second_event ∷ [])))
    ↔ Linked digest genesis_hash (event ∷ second_event ∷ [])
verify_chain-valid_iff_example = verify_chain-valid_iff digest (event ∷ second_event ∷ [])

verify_chain-Break_example : Break digest genesis_hash (event ∷ event ∷ []) 1 "evt" ones ones
unfolding verify_chain walk compute_hash
verify_chain-Break_example = verify_chain-Break digest (event ∷ event ∷ []) 2 1 "evt" ones ones refl

record_event-Linked_example :
    (e : AuditEvent) × (record_event digest (outside 0) args (event ∷ [])
      ≡ some (("evt", e.event_hash), event ∷ e ∷ []))
    × Linked digest genesis_hash (event ∷ e ∷ [])
    × (chain_head (event ∷ e ∷ []) ≡ (2, e.event_hash))
record_event-Linked_example =
    record_event-Linked digest (outside 0) args (event ∷ []) hex linked refl

-- An event with its hash, under a digest of texts that can be read back; the event after it; and the
-- first event as another database gives it back.
abbrev hashed : String → AuditEvent → AuditEvent
hashed prev_hash e = record e {
  prev_hash = prev_hash;
  event_hash = compute_hash encoded (body_of encoded e) prev_hash;
}

abbrev first : AuditEvent
first = hashed genesis_hash event

abbrev second : AuditEvent
second = hashed first.event_hash (record event { event_id = "evt_2"; payload = field "a" null end })

abbrev first_elsewhere : AuditEvent
first_elsewhere = record first { seq = 7; created_at = record { wall = 0; tzinfo = none } }

growth-Matches_example :
    Matches digest (audit_verify digest 7 true (event ∷ []) store).1 (event ∷ second_event ∷ [])
growth-Matches_example =
    growth-Matches digest 7 (event ∷ []) (second_event ∷ []) store hex linked (omega arith) refl

empty_anchor_alarm_example :
    (c : Comparison) × (verify_against_checkpoints digest
        (audit_verify digest 7 true [] store).1
        (event ∷ [])
      ≡ compared c)
    × (c.prefix_chain_valid ≡ true)
    × (c.matches ≡ false)
empty_anchor_alarm_example =
    empty_anchor_alarm digest 7 (event ∷ []) store linked (ne_of_eq-false ones genesis_hash refl)
      refl
