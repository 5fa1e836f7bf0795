-- ===== src/Checkpoint.antt =====
-- The independent anchor of the audit chain's head, gateway/checkpoint.py, and the routes
-- `/audit/verify` and `/audit/checkpoint` of gateway/routes/payments.py.
pub mod Anchor
use agent_pay_sentinel.Prelude.{
  ℕ, suc, ◌+◌, String, Bool, true, false, ◌&&◌, Option, none, some, List, [], ◌∷◌, ◌++◌, ◌==◌,
  if◌then◌else◌,
}
use agent_pay_sentinel.Audit.{AuditEvent, Digest, Verdict, valid, broken, verify_chain, chain_head}

pub record AuditCheckpoint : Type 0 where
  pub seq : ℕ
  pub chain_events : ℕ
  pub head_hash : String
  pub created_at : ℕ

-- The independent store: whether there is one, and its rows in the order of `seq`.
pub record Anchors : Type 0 where
  pub configured : Bool
  pub rows : List AuditCheckpoint

-- The answer of `anchor_checkpoint`: no store, a failure of it, or the new row.
pub data Anchored : Type 0 where
  not_anchored : String → Anchored
  failed : String → Anchored
  anchored : AuditCheckpoint → Anchored

unfoldable pub latest : List AuditCheckpoint → Option AuditCheckpoint
latest [] = none
latest (c ∷ []) = some c
latest (c ∷ c' ∷ cs) = latest (c' ∷ cs)

next_seq : Option AuditCheckpoint → ℕ
next_seq none = 1
next_seq (some c) = c.seq + 1

-- `up` is whether the transaction on the store commits.
unfoldable pub anchor_checkpoint : String → ℕ → ℕ → Bool → Anchors → Anchored × Anchors
unfolding next_seq latest
anchor_checkpoint head_hash chain_events now up a =
    let row : AuditCheckpoint = record {
      seq = next_seq (latest a.rows);
      chain_events = chain_events;
      head_hash = head_hash;
      created_at = now;
    } in
    if a.configured
    then (if up
        then (anchored row, record a { rows = a.rows ++ row ∷ [] })
        else (failed head_hash, a))
    else (not_anchored head_hash, a)

unfoldable pub latest_checkpoint : Anchors → Option AuditCheckpoint
unfolding latest
latest_checkpoint a = if a.configured then latest a.rows else none

pub record Comparison : Type 0 where
  pub matches : Bool
  pub anchored_head : String
  pub anchored_at : ℕ
  pub anchored_events : ℕ
  pub recomputed_prefix_head : Option String
  pub prefix_chain_valid : Bool

pub data Answer : Type 0 where
  not_configured : Answer
  no_checkpoint : Answer
  compared : Comparison → Answer

-- `prefix.get("head_hash")` and `prefix.get("valid")`
abbrev pub head_of : Verdict → Option String
head_of (valid n h) = some h
head_of (broken n seq id expected stored) = none

abbrev pub is_valid : Verdict → Bool
is_valid (valid n h) = true
is_valid (broken n seq id expected stored) = false

abbrev same_head : Option String → String → Bool
same_head none h = false
same_head (some g) h = g == h

compare_with : AuditCheckpoint → Verdict → Comparison
compare_with c prefix = record {
  matches = is_valid prefix && same_head (head_of prefix) c.head_hash;
  anchored_head = c.head_hash;
  anchored_at = c.created_at;
  anchored_events = c.chain_events;
  recomputed_prefix_head = head_of prefix;
  prefix_chain_valid = is_valid prefix;
}

pub record Report : Type 0 where
  pub chain : Verdict
  pub head : ℕ × String
  pub against_anchor : Answer
  pub checkpoint : Anchored

module _ (d : Digest) where
  answer : Option AuditCheckpoint → List AuditEvent → Answer
  unfolding compare_with
  answer none log = no_checkpoint
  answer (some c) log = compared (compare_with c (verify_chain d (some c.chain_events) log))

  unfoldable pub verify_against_checkpoints : Anchors → List AuditEvent → Answer
  unfolding answer latest_checkpoint
  verify_against_checkpoints a log =
      if a.configured then answer (latest_checkpoint a) log else not_configured

  -- The handler compares with the previous anchor first, then lays down a new one.
  unfoldable pub audit_verify : ℕ → Bool → List AuditEvent → Anchors → Report × Anchors
  unfolding verify_against_checkpoints anchor_checkpoint
  audit_verify now up log a =
      let head = chain_head log in
      let (new, a') = anchor_checkpoint head.1 head.0 now up a in
      (
        record {
          chain = verify_chain d none log;
          head = head;
          against_anchor = verify_against_checkpoints a log;
          checkpoint = new;
        },
        a',
      )

unfoldable pub audit_checkpoint : ℕ → Bool → List AuditEvent → Anchors → Anchored × Anchors
unfolding anchor_checkpoint
audit_checkpoint now up log a =
    let head = chain_head log in anchor_checkpoint head.1 head.0 now up a
