-- ===== src/Payments/Recovery.antt =====
-- The two background sweeps of gateway/payments.py: `reconcile_unknown` and
-- `expire_stale_authorizations`.
use agent_pay_sentinel.Prelude.{
  ℕ, suc, ◌*◌, ◌-◌, String, leb, ltb, eqb, Bool, true, false, ◌&&◌, ◌||◌, Option, none, some, List,
  [], ◌∷◌, length, Dict, if◌then◌else◌,
}
use agent_pay_sentinel.Clock.{seconds}
use agent_pay_sentinel.Lifecycle.{authorized, confirmed, failed, unknown, expired, same}
use agent_pay_sentinel.Result.{ok, err}
use agent_pay_sentinel.Payments.{Row, bad_json, Run, and_then, Services, set_state}
use agent_pay_sentinel.Payments.Submission.{Payload, Reply, no_answer, response, says}

pub record Resolved : Type 0 where
  pub confirmed : ℕ
  pub failed : ℕ
  pub still_unknown : ℕ

abbrev pub none_resolved : Resolved
none_resolved = record { confirmed = 0; failed = 0; still_unknown = 0 }

-- `select(...).where(...)`, the primary keys of the rows that pass
unfoldable pub select : (Row → Bool) → Dict Row → List String
select p [] = []
select p ((id, r) ∷ rows) = let rest = select p rows in if p r then id ∷ rest else rest

abbrev pub is_unknown : ℕ → Row → Bool
is_unknown cutoff r = same r.state unknown && leb cutoff r.created_at

abbrev pub elapsed : ℕ → Option ℕ → Bool
elapsed now none = false
elapsed now (some e) = ltb (seconds e) now

abbrev pub is_stale : ℕ → Row → Bool
is_stale now r = same r.state authorized && elapsed now r.token_expires_at

module _ (env : Services) where
  abbrev pub resolve_failed : String → String → Resolved → Run Resolved
  resolve_failed id detail n w =
      and_then (set_state env id failed none (some detail) true w)
        (λ _ v. (ok (record n { failed = suc n.failed }), v))

  unfoldable pub by_payload : String → Resolved → Option Payload → Run Resolved
  by_payload id n none w = (err bad_json, w)
  by_payload id n (some p) w =
      if says "confirmed" p.status
      then and_then
          (set_state env id confirmed p.provider_reference (some "resolved by reconciliation") true
            w)
          (λ _ v. (ok (record n { confirmed = suc n.confirmed }), v))
      else if says "failed" p.status || says "declined" p.status
      then resolve_failed id "resolved by reconciliation" n w
      else (ok (record n { still_unknown = suc n.still_unknown }), w)

  -- One pending payment, by the provider's answer about it.
  unfoldable pub resolve : String → Resolved → Reply → Run Resolved
  unfolding by_payload
  resolve id n (no_answer exc) w = (ok (record n { still_unknown = suc n.still_unknown }), w)
  resolve id n (response code body payload) w =
      if eqb code 404
      then resolve_failed id "provider has no record; never charged" n w
      else if leb 400 code
      then (ok (record n { still_unknown = suc n.still_unknown }), w)
      else by_payload id n payload w

  unfoldable pub resolve_all : (String → Reply) → List String → Resolved → Run Resolved
  unfolding resolve
  resolve_all ask [] n w = (ok n, w)
  resolve_all ask (id ∷ ids) n w = and_then (resolve id n (ask id) w) (resolve_all ask ids)

  unfoldable pub reconcile_unknown : (String → Reply) → ℕ → ℕ → Run Resolved
  unfolding resolve_all select
  reconcile_unknown ask max_age_minutes now w =
      resolve_all ask (select (is_unknown (now - seconds (max_age_minutes * 60))) w.rows)
        none_resolved w

  unfoldable pub expire_all : List String → Run (Unit {0})
  expire_all [] w = (ok tt, w)
  expire_all (id ∷ ids) w =
      and_then (set_state env id expired none (some "token TTL elapsed unused") true w)
        (λ _. expire_all ids)

  unfoldable pub expire_stale_authorizations : ℕ → Run ℕ
  unfolding expire_all select
  expire_stale_authorizations now w =
      let stale = select (is_stale now) w.rows in
      and_then (expire_all stale w) (λ _ v. (ok (length stale), v))
