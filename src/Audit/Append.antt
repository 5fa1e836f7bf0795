-- ===== src/Audit/Append.antt =====
-- gateway/audit.py: `record_event` on a chain.
use Prim.Native.String.{count}
use agent_pay_sentinel.Prelude.{
  ◌+◌, String, ◌≡◌, refl, ap, ◌≢◌, ne_of_eq-false, true, some, List, [], ◌∷◌, ◌++◌, arith, length,
  length-append, eq_iff, ◌<>◌,
}
use agent_pay_sentinel.Audit.{
  AuditEvent, Digest, Outside, EventArgs, genesis_hash, or_text, last_hash, last_seq, compute_hash,
  body_of, new_event, record_event, chain_head,
}
use agent_pay_sentinel.Audit.Chain.{head_from, Link, Linked}

last_hash-head_from :
    (h : String) (e : AuditEvent) (es : List AuditEvent)
    → last_hash (e ∷ es) ≡ some (head_from h (e ∷ es))
unfolding last_hash
last_hash-head_from h e [] = refl
last_hash-head_from h e (f ∷ es) = last_hash-head_from e.event_hash f es

pub head_from-append :
    (h : String) (es : List AuditEvent) (e : AuditEvent) → head_from h (es ++ e ∷ []) ≡ e.event_hash
head_from-append h [] e = refl
head_from-append h (f ∷ es) e = head_from-append f.event_hash es e

-- A hexadecimal digest has 64 characters.
abbrev pub HexDigest : Digest → Type 0
HexDigest d = (x : String) → count (d.sha256 x) ≡ 64

ne-empty : (s : String) → count s ≡ 64 → s ≢ ""
ne-empty s n e = absurd (omega (arith, n, ap count e))

module _ (d : Digest) where
  head_from-ne :
      (h : String) (es : List AuditEvent)
      → HexDigest d
      → h ≢ ""
      → Linked d h es
      → head_from h es ≢ ""
  unfolding compute_hash
  head_from-ne h [] ne hne l = hne
  head_from-ne h (e ∷ es) ne hne l =
      head_from-ne e.event_hash es ne
        (ne-empty e.event_hash (rw l.0.1 (ne (d.dumps (body_of d e) <> h)))) l.1

  pub head-last_hash :
      (log : List AuditEvent)
      → HexDigest d
      → Linked d genesis_hash log
      → or_text (last_hash log) genesis_hash ≡ head_from genesis_hash log
  head-last_hash [] ne l = unfold last_hash in refl
  head-last_hash (e ∷ es) ne l = ground (
    arith,
    last_hash-head_from genesis_hash e es,
    head_from-ne genesis_hash (e ∷ es) ne (ne_of_eq-false genesis_hash "" refl) l,
    eq_iff (head_from e.event_hash es) "",
  )

  Linked-append :
      (h : String) (es : List AuditEvent) (e : AuditEvent)
      → Linked d h es
      → Link d (head_from h es) e
      → Linked d h (es ++ e ∷ [])
  Linked-append h [] e l k = (k, tt)
  Linked-append h (f ∷ es) e l k = (l.0, Linked-append f.event_hash es e l.1 k)

  -- `record_event` on a chain, where the lock is taken: the result is a chain one event longer,
  -- its head is the returned hash, and the events that were there are left as they were.
  pub record_event-Linked :
      (o : Outside) (a : EventArgs) (log : List AuditEvent)
      → HexDigest d
      → Linked d genesis_hash log
      → o.locked ≡ true
      → (e : AuditEvent) × (record_event d o a log
          ≡ some ((o.event_id, e.event_hash), log ++ e ∷ []))
        × Linked d genesis_hash (log ++ e ∷ [])
        × (chain_head (log ++ e ∷ []) ≡ (length log + 1, e.event_hash))
  record_event-Linked o a log hex l on = (e, unfold record_event in rw on, linked, headed)
    where
      e : AuditEvent
      e = new_event d o a (last_seq log + 1) (or_text (last_hash log) genesis_hash)

      head : or_text (last_hash log) genesis_hash ≡ head_from genesis_hash log
      head = head-last_hash log hex l

      linked : Linked d genesis_hash (log ++ e ∷ [])
      linked =
          Linked-append genesis_hash log e l
            (unfold new_event in (head, ap (compute_hash d (body_of d e)) head))

      headed : chain_head (log ++ e ∷ []) ≡ (length log + 1, e.event_hash)
      headed =
          unfold chain_head in
          rw (head-last_hash (log ++ e ∷ []) hex linked, head_from-append genesis_hash log e)
            (rw (length-append log (e ∷ [])))
