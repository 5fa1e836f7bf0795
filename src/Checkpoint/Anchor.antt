-- ===== src/Checkpoint/Anchor.antt =====
-- gateway/checkpoint.py: an anchored head against the log.
use mathlib.Core.Path.{subst}
use agent_pay_sentinel.Prelude.{
  ℕ, zero, suc, ◌<◌, ◌≡◌, refl, ◌≢◌, sym, ap, eq-false_of_ne, true, false, none, some, List, [],
  ◌∷◌, ◌++◌, arith, length, take, eq_refl,
}
use agent_pay_sentinel.Audit.{AuditEvent, Digest, genesis_hash, verify_chain, chain_head}
use agent_pay_sentinel.Audit.Chain.{head_from, Linked, verify_chain-valid_iff}
use agent_pay_sentinel.Audit.Append.{HexDigest, head-last_hash}
use agent_pay_sentinel.Checkpoint.{
  AuditCheckpoint, Anchors, latest, latest_checkpoint, anchor_checkpoint, compared, compare_with,
  Comparison, next_seq, verify_against_checkpoints, audit_verify,
}

take-length-append {ℓ} : {A : Type ℓ} (xs ys : List A) → take (length xs) (xs ++ ys) ≡ xs
take-length-append [] ys = refl
take-length-append (x ∷ xs) ys = ap (◌∷◌ x) (take-length-append xs ys)

latest-append : (cs : List AuditCheckpoint) (c : AuditCheckpoint) → latest (cs ++ c ∷ []) ≡ some c
unfolding latest
latest-append [] c = refl
latest-append (c' ∷ []) c = refl
latest-append (c' ∷ c'' ∷ cs) c = latest-append (c'' ∷ cs) c

-- The anchor's comparison found no difference.
abbrev pub Matches : Digest → Anchors → List AuditEvent → Type 0
Matches d a log =
    (c : Comparison) × (verify_against_checkpoints d a log ≡ compared c) × (c.matches ≡ true)

module _ (d : Digest) where
  limit-zero : (log : List AuditEvent) → verify_chain d (some 0) log ≡ verify_chain d none log
  unfolding verify_chain
  limit-zero log = refl

  limit-take :
      (n : ℕ) (log : List AuditEvent)
      → 0 < n
      → verify_chain d (some n) log ≡ verify_chain d none (take n log)
  unfolding verify_chain
  limit-take zero log h = absurd (omega arith)
  limit-take (suc n) log h = ground arith

  anchored_row : ℕ → List AuditEvent → Anchors → AuditCheckpoint
  unfolding anchor_checkpoint
  anchored_row now log a = record {
    seq = next_seq (latest a.rows);
    chain_events = length log;
    head_hash = (chain_head log).1;
    created_at = now;
  }

  audit_verify-latest :
      (now : ℕ) (log : List AuditEvent) (a : Anchors)
      → a.configured ≡ true
      → ((audit_verify d now true log a).1.configured ≡ true)
        × (latest_checkpoint (audit_verify d now true log a).1 ≡ some (anchored_row now log a))
  unfolding audit_verify anchored_row chain_head
  audit_verify-latest now log a on = ground (arith, latest-append a.rows (anchored_row now log a))

  chain_head-head_from :
      (log : List AuditEvent)
      → HexDigest d
      → Linked d genesis_hash log
      → (chain_head log).1 ≡ head_from genesis_hash log
  unfolding chain_head
  chain_head-head_from log hex l = head-last_hash d log hex l

  -- A comparison is one of a single row with the chain up to that row's count.
  compared_with :
      (a : Anchors) (log : List AuditEvent) (c : AuditCheckpoint)
      → a.configured ≡ true
      → latest_checkpoint a ≡ some c
      → verify_against_checkpoints d a log
        ≡ compared (compare_with c (verify_chain d (some c.chain_events) log))
  unfolding verify_against_checkpoints
  compared_with a log c on e = ground arith

  -- A log whose first events are a chain with the anchored head compares as a match.
  pub same_head-Matches :
      (now : ℕ) (log other : List AuditEvent) (a : Anchors)
      → HexDigest d
      → Linked d genesis_hash log
      → Linked d genesis_hash (take (length log) other)
      → head_from genesis_hash (take (length log) other) ≡ head_from genesis_hash log
      → 0 < length log
      → a.configured ≡ true
      → Matches d (audit_verify d now true log a).1 other
  same_head-Matches now log other a hex l l' same p on =
      let (on', row) = audit_verify-latest now log a on in
      (
        _,
        compared_with (audit_verify d now true log a).1 other (anchored_row now log a) on' row,
        unfold anchored_row compare_with in
            rw
              (
                limit-take (length log) other p,
                (verify_chain-valid_iff d (take (length log) other)).1 l',
                chain_head-head_from log hex l,
                same,
              )
              (eq_refl (head_from genesis_hash log)),
      )

  -- Growth is no alarm: once a chain that is not empty has been anchored by `/audit/verify`, every
  -- longer log that begins with it compares as a match.
  pub growth-Matches :
      (now : ℕ) (log more : List AuditEvent) (a : Anchors)
      → HexDigest d
      → Linked d genesis_hash log
      → 0 < length log
      → a.configured ≡ true
      → Matches d (audit_verify d now true log a).1 (log ++ more)
  growth-Matches now log more a hex l p on =
      let first = take-length-append log more in
      same_head-Matches now log (log ++ more) a hex l (subst (Linked d genesis_hash) (sym first) l)
        (ap (head_from genesis_hash) first) p on

  -- An anchor of the empty log is a false alarm in waiting: `/audit/verify` on no events anchors
  -- the genesis hash with the count 0, which the prefix check reads as no limit. Any chain that
  -- grows from there, whatever its events, compares as a mismatch, unless its head is 64 zeroes.
  pub empty_anchor_alarm :
      (now : ℕ) (log : List AuditEvent) (a : Anchors)
      → Linked d genesis_hash log
      → head_from genesis_hash log ≢ genesis_hash
      → a.configured ≡ true
      → (c : Comparison) × (verify_against_checkpoints d (audit_verify d now true [] a).1 log
          ≡ compared c)
        × (c.prefix_chain_valid ≡ true)
        × (c.matches ≡ false)
  empty_anchor_alarm now log a l ne on =
      let (on', row) = audit_verify-latest now [] a on in
      (
        _,
        compared_with (audit_verify d now true [] a).1 log (anchored_row now [] a) on' row,
        unfold anchored_row compare_with in rw (limit-zero log, (verify_chain-valid_iff d log).1 l),
        unfold anchored_row compare_with chain_head in
            rw (limit-zero log, (verify_chain-valid_iff d log).1 l) (eq-false_of_ne _ _ ne),
      )
