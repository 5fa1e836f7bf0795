-- ===== src/Audit/Chain.antt =====
-- gateway/audit.py: `verify_chain` against the definition of a chain.
use agent_pay_sentinel.Prelude.{
  ℕ, String, ◌≡◌, refl, ap, ◌↔◌, ◌&&◌, inl, inr, none, List, [], ◌∷◌, ◌++◌, arith, length, ◌==◌,
  eq_iff, Bool-cases,
}
use agent_pay_sentinel.Audit.{
  AuditEvent, Digest, valid, broken, genesis_hash, compute_hash, body_of, walk, verify_chain,
}

-- The hash of the last event, or the one before the first.
abbrev pub head_from : String → List AuditEvent → String
head_from h [] = h
head_from h (e ∷ es) = head_from e.event_hash es

module _ (d : Digest) where
  -- H_n = SHA256(canonical_json(event_n) || H_{n-1}), and each event names the hash before it.
  abbrev pub Link : String → AuditEvent → Type 0
  Link h e = (e.prev_hash ≡ h) × (e.event_hash ≡ compute_hash d (body_of d e) h)

  abbrev pub Linked : String → List AuditEvent → Type 0
  Linked h [] = Unit
  Linked h (e ∷ es) = Link h e × Linked e.event_hash es

  walk-valid :
      (n : ℕ) (h : String) (es : List AuditEvent)
      → Linked h es
      → walk d n h es ≡ valid n (head_from h es)
  unfolding walk
  walk-valid n h [] l = refl
  walk-valid n h (e ∷ es) l = ground (
    arith,
    eq_iff e.prev_hash h,
    eq_iff e.event_hash (compute_hash d (body_of d e) h),
    walk-valid n e.event_hash es,
  )

  walk-Linked :
      (n : ℕ) (h : String) (es : List AuditEvent) (m : ℕ) (g : String)
      → walk d n h es ≡ valid m g
      → Linked h es
  unfolding walk
  walk-Linked n h [] m g l = tt
  walk-Linked n h (e ∷ es) m g l = ground (
    arith,
    eq_iff e.prev_hash h,
    eq_iff e.event_hash (compute_hash d (body_of d e) h),
    walk-Linked n e.event_hash es m g,
  )

  -- A chain is reported valid, with its length and its head, exactly when every event is linked to
  -- the one before it.
  pub verify_chain-valid_iff :
      (log : List AuditEvent)
      → (verify_chain d none log ≡ valid (length log) (head_from genesis_hash log))
        ↔ Linked genesis_hash log
  unfolding verify_chain
  verify_chain-valid_iff log =
      (walk-Linked (length log) genesis_hash log _ _, walk-valid (length log) genesis_hash log)

  pub verify_chain_sound :
      (log : List AuditEvent) (n : ℕ) (h : String)
      → verify_chain d none log ≡ valid n h
      → Linked genesis_hash log × (head_from genesis_hash log ≡ h)
  unfolding verify_chain
  verify_chain_sound log n h e =
      let l : Linked genesis_hash log = walk-Linked (length log) genesis_hash log n h e in
      (l, cc (e, walk-valid (length log) genesis_hash log l))

  -- What a report of a break says: the events before it are linked, and it is not.
  pub record Break (h : String) (es : List AuditEvent) (seq : ℕ) (id expected stored : String)
      : Type 0 where
    pub before : List AuditEvent
    pub event : AuditEvent
    pub after : List AuditEvent
    pub split : es ≡ before ++ event ∷ after
    pub sound : Linked h before
    pub unlinked : ¬ Link (head_from h before) event
    pub named : (event.seq ≡ seq) × (event.event_id ≡ id) × (event.event_hash ≡ stored)
    pub recomputed : expected ≡ compute_hash d (body_of d event) (head_from h before)

  Break-cons :
      (h : String) (x : AuditEvent) (es : List AuditEvent) (seq : ℕ) (id expected stored : String)
      → Link h x
      → Break x.event_hash es seq id expected stored
      → Break h (x ∷ es) seq id expected stored
  Break-cons h x es seq id expected stored l b = record {
    before = x ∷ b.before;
    event = b.event;
    after = b.after;
    split = ap (◌∷◌ x) b.split;
    sound = (l, b.sound);
    unlinked = b.unlinked;
    named = b.named;
    recomputed = b.recomputed;
  }

  walk-Break :
      (n : ℕ) (h : String) (es : List AuditEvent) (m seq : ℕ) (id expected stored : String)
      → walk d n h es ≡ broken m seq id expected stored
      → Break h es seq id expected stored
  unfolding walk
  walk-Break n h [] m seq id expected stored e = cc
  walk-Break n h (x ∷ es) m seq id expected stored e =
      elim (Bool-cases (x.prev_hash == h && x.event_hash == compute_hash d (body_of d x) h)) [
        | inl p ↦
            Break-cons h x es seq id expected stored
              (ground
                (arith, eq_iff x.prev_hash h, eq_iff x.event_hash (compute_hash d (body_of d x) h)))
              (walk-Break n x.event_hash es m seq id expected stored (ground arith))
        | inr p ↦ record {
          before = [];
          event = x;
          after = es;
          split = refl;
          sound = tt;
          unlinked = λ l.
              ground
                (arith, eq_iff x.prev_hash h, eq_iff x.event_hash (compute_hash d (body_of d x) h));
          named = ground arith;
          recomputed = ground arith;
        }
      ]

  -- A report of a break names the first event that is not linked to the one before it: all events
  -- before it are, and the expected hash is the one that it should have.
  pub verify_chain-Break :
      (log : List AuditEvent) (n seq : ℕ) (id expected stored : String)
      → verify_chain d none log ≡ broken n seq id expected stored
      → Break genesis_hash log seq id expected stored
  unfolding verify_chain
  verify_chain-Break log n seq id expected stored =
      walk-Break (length log) genesis_hash log n seq id expected stored
