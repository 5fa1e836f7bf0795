-- ===== src/Duplicates/Replay.antt =====
-- gateway/payments.py: `check_duplicate` after `remember_outcome`.
use agent_pay_sentinel.Prelude.{
  ℕ, ◌+◌, ◌*◌, ◌≤◌, String, ◌<>◌, ◌==◌, ◌≡◌, refl, ◌≢◌, Bool, true, false, Option, none, some,
  arith, ap, eq_refl, eq-false_of_ne, append-ne, if◌then◌else◌,
}
use agent_pay_sentinel.Canonical.{CanonicalTransaction}
use agent_pay_sentinel.Clock.{seconds}
use agent_pay_sentinel.Schemas.{DecisionResponse}
use agent_pay_sentinel.Store.{Store}
use agent_pay_sentinel.Store.Laws.{view, get-eq-view, view-get, view-set}
use agent_pay_sentinel.Values.{Value, text, outcome}
use agent_pay_sentinel.Duplicates.{
  Lifetimes, IdempotencyOutcome, idem_key, fingerprint_key, replay, reused, seen_before,
  from_record, from_fingerprint, then_fingerprint, check_duplicate, remember_outcome,
}

-- The two families of keys never meet.
keys_apart : (u k f : String) → (fingerprint_key f == idem_key u k) ≡ false
unfolding fingerprint_key idem_key
keys_apart u k f =
    eq-false_of_ne (fingerprint_key f) (idem_key u k)
      (append-ne "agentpay:f" "agentpay:i" "p:" "dem:" f (u <> (":" <> k)) refl refl)

keys_apart_back : (u k f : String) → (idem_key u k == fingerprint_key f) ≡ false
unfolding fingerprint_key idem_key
keys_apart_back u k f =
    eq-false_of_ne (idem_key u k) (fingerprint_key f)
      (append-ne "agentpay:i" "agentpay:f" "dem:" "p:" (u <> (":" <> k)) f refl refl)

abbrev answer : CanonicalTransaction → Option IdempotencyOutcome → Option Value → IdempotencyOutcome
answer txn none seen = from_fingerprint txn.payment_authorization_id seen
answer txn (some o) seen = o

then_fingerprint-view :
    (txn : CanonicalTransaction) (now : ℕ) (o : Option IdempotencyOutcome) (s : Store Value)
    → (then_fingerprint txn now o s).0 ≡ answer txn o (view s now (fingerprint_key txn.fingerprint))
unfolding then_fingerprint
then_fingerprint-view txn now none s =
    ap (from_fingerprint txn.payment_authorization_id)
      (get-eq-view (fingerprint_key txn.fingerprint) now s)
then_fingerprint-view txn now (some o) s = refl

check_duplicate-view :
    (txn : CanonicalTransaction) (now : ℕ) (s : Store Value)
    → (check_duplicate txn now s).0
      ≡ answer txn
          (from_record txn.payload_hash (view s now (idem_key txn.user_id txn.idempotency_key)))
          (view s now (fingerprint_key txn.fingerprint))
unfolding check_duplicate
check_duplicate-view txn now s =
    rw
      (
        then_fingerprint-view,
        get-eq-view (idem_key txn.user_id txn.idempotency_key) now s,
        view-get (idem_key txn.user_id txn.idempotency_key) (fingerprint_key txn.fingerprint) now
            now s (omega arith),
      )
      refl

module _ (l : Lifetimes) (txn : CanonicalTransaction) (r : DecisionResponse) (t : ℕ) where
  remembered :
      (reserve : Bool) (now : ℕ) (s : Store Value)
      → now ≤ t + seconds l.idempotency_ttl_seconds
      → view (remember_outcome l txn r reserve t s) now (idem_key txn.user_id txn.idempotency_key)
        ≡ some (outcome txn.payload_hash r)
  unfolding remember_outcome
  remembered true now s h =
      rw
        (
          view-set,
          keys_apart txn.user_id txn.idempotency_key txn.fingerprint,
          view-set,
          eq_refl (idem_key txn.user_id txn.idempotency_key),
        )
        (ground arith)
  remembered false now s h =
      rw (view-set, eq_refl (idem_key txn.user_id txn.idempotency_key)) (ground arith)

  reserved :
      (now : ℕ) (s : Store Value)
      → now ≤ t + seconds (l.fingerprint_window_seconds * 2)
      → view (remember_outcome l txn r true t s) now (fingerprint_key txn.fingerprint)
        ≡ some (text txn.payment_authorization_id)
  unfolding remember_outcome
  reserved now s h = rw (view-set, eq_refl (fingerprint_key txn.fingerprint)) (ground arith)

  -- The idempotency key of another request is as it was.
  not_remembered :
      (reserve : Bool) (now : ℕ) (s : Store Value) (u k : String)
      → (idem_key txn.user_id txn.idempotency_key == idem_key u k) ≡ false
      → view (remember_outcome l txn r reserve t s) now (idem_key u k) ≡ view s now (idem_key u k)
  unfolding remember_outcome
  not_remembered true now s u k h = rw (view-set, keys_apart u k txn.fingerprint, view-set, h) refl
  not_remembered false now s u k h = rw (view-set, h) refl

  -- As long as an idempotency record lives, a request of the same user under the same key is answered
  -- from it: the stored response when the payload's hash is the stored one, a conflict otherwise.
  pub retry_replays :
      (again : CanonicalTransaction) (reserve : Bool) (now : ℕ) (s : Store Value)
      → again.user_id ≡ txn.user_id
      → again.idempotency_key ≡ txn.idempotency_key
      → now ≤ t + seconds l.idempotency_ttl_seconds
      → (check_duplicate again now (remember_outcome l txn r reserve t s)).0
        ≡ (if txn.payload_hash == again.payload_hash then replay r else reused)
  unfolding from_record
  retry_replays again reserve now s u k h =
      rw (check_duplicate-view, u, k, remembered reserve now s h) refl

  -- After an outcome that reserves its fingerprint, and for two windows, a request with that
  -- fingerprint and another authorization id conflicts, when no live record stands under its own
  -- idempotency key and that key is another one.
  pub same_cart_conflicts :
      (other : CanonicalTransaction) (now : ℕ) (s : Store Value)
      → other.fingerprint ≡ txn.fingerprint
      → txn.payment_authorization_id ≢ other.payment_authorization_id
      → txn.payment_authorization_id ≢ ""
      → idem_key txn.user_id txn.idempotency_key ≢ idem_key other.user_id other.idempotency_key
      → view s now (idem_key other.user_id other.idempotency_key) ≡ none
      → now ≤ t + seconds (l.fingerprint_window_seconds * 2)
      → (check_duplicate other now (remember_outcome l txn r true t s)).0
        ≡ seen_before txn.payment_authorization_id
  unfolding from_record from_fingerprint
  same_cart_conflicts other now s f ne full k free h =
      rw
        (
          check_duplicate-view,
          not_remembered true now s other.user_id other.idempotency_key (eq-false_of_ne _ _ k),
          free,
          f,
          reserved now s h,
          eq-false_of_ne _ _ full,
          eq-false_of_ne _ _ ne,
        )
        refl

  -- An outcome that reserves nothing leaves a request under another key as it would be without it.
  pub unreserved_is_silent :
      (other : CanonicalTransaction) (now : ℕ) (s : Store Value)
      → idem_key txn.user_id txn.idempotency_key ≢ idem_key other.user_id other.idempotency_key
      → (check_duplicate other now (remember_outcome l txn r false t s)).0
        ≡ (check_duplicate other now s).0
  unfolding remember_outcome
  unreserved_is_silent other now s k =
      rw
        (
          check_duplicate-view,
          check_duplicate-view,
          not_remembered false now s other.user_id other.idempotency_key (eq-false_of_ne _ _ k),
          view-set,
          keys_apart_back txn.user_id txn.idempotency_key other.fingerprint,
        )
        refl
