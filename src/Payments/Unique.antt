-- ===== src/Payments/Unique.antt =====
-- The partial unique index of gateway/models.py.
use agent_pay_sentinel.Prelude.{
  ℕ, String, ◌==◌, ◌≡◌, refl, ap, sym, ◌∙◌, ◌≢◌, true, false, ◌&&◌, not, Option, none, some, List,
  ◌∷◌, [], Dict, lookup, eq_refl, Bool-cases, inl, inr,
}
use agent_pay_sentinel.Canonical.{CanonicalTransaction}
use agent_pay_sentinel.Lifecycle.{PaymentState}
use agent_pay_sentinel.Result.{err}
use agent_pay_sentinel.Schemas.{Decision, allow, require_approval, block, RiskAssessment}
use agent_pay_sentinel.Tokens.{IssuedToken}
use agent_pay_sentinel.Payments.{
  Row, World, Fault, Services, is_block, indexed, insert_row, row_of, persist_transaction,
}
use agent_pay_sentinel.Payments.Moves.{Reach, history_follows}

not_block : (d : Decision) → d ≢ block → is_block d ≡ false
unfolding is_block
not_block allow h = refl
not_block require_approval h = refl
not_block block h = absurd (h refl)

some_row : (q r : Row) → some q ≡ some r → q ≡ r
some_row q r h = cc

indexed-lookup :
    (user key id : String) (r : Row) (rows : Dict Row)
    → lookup id rows ≡ some r
    → r.user_id ≡ user
    → r.idempotency_key ≡ key
    → is_block r.decision ≡ false
    → indexed user key rows ≡ true
unfolding indexed lookup
indexed-lookup user key id r [] h u k b = cc
indexed-lookup user key id r ((j, q) ∷ rows) h u k b = elim (Bool-cases (j == id)) [
  | inl e ↦ rw (some_row q r (rw e at h), u, k, eq_refl user, eq_refl key, b) refl
  | inr e ↦
      let rest = indexed-lookup user key id r rows (rw e at h) u k b in
      elim (Bool-cases
        (q.user_id == user && (q.idempotency_key == key && not (is_block q.decision)))) [
          | inl c ↦ rw c refl
          | inr c ↦ rw c rest
        ]
]

refused :
    (id : String) (r : Row) (w : World) (q : Option Row)
    → (f : Fault) × (insert_row id r true w q ≡ (err f, w))
unfolding insert_row
refused id r w none = (_, refl)
refused id r w (some q) = (_, refl)

module _ (env : Services) where
  -- Once a transaction that is not blocked is on record, and whatever the operations do after it, an
  -- insert of a second such transaction of the same user under the same idempotency key raises and
  -- leaves the table as it was: so no key is authorized twice, and so the retry of a transaction that
  -- waits for its approval cannot be persisted under the key it was parked with.
  pub one_transaction_per_key :
      (v w : World)
      → Reach env v w
      → (id : String) (r : Row) → lookup id v.rows ≡ some r
      → r.decision ≢ block
      → (txn : CanonicalTransaction) (decision : Decision) (reasons : List String)
        (state : PaymentState) (risk : RiskAssessment) (policy_version : String)
        (t : Option IssuedToken) (now : ℕ)
      → txn.user_id ≡ r.user_id
      → txn.idempotency_key ≡ r.idempotency_key
      → decision ≢ block
      → (f : Fault) × (persist_transaction txn decision reasons state risk policy_version t now w
          ≡ (err f, w))
  unfolding persist_transaction
  one_transaction_per_key v w h id r e ne txn decision reasons state risk policy_version t now u k
        d =
      let (r', found, _, same) = history_follows env v w h id r e in
      let i =
        indexed-lookup txn.user_id txn.idempotency_key id r' w.rows found
          (ap (λ x. x.user_id) same ∙ sym u) (ap (λ x. x.idempotency_key) same ∙ sym k)
          (ap (λ x. is_block x.decision) same ∙ not_block r.decision ne) in
      rw (i, not_block decision d)
        (refused txn.payment_authorization_id
          (row_of txn decision reasons state risk policy_version t now) w _)
