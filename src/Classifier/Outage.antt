-- ===== src/Classifier/Outage.antt =====
-- gateway/analyzer/llm.py: an outage of the API, from the first failure to the end of the cooldown.
use agent_pay_sentinel.Prelude.{
  ℕ, suc, ◌+◌, ◌≤◌, ◌<◌, String, ◌≡◌, refl, true, false, List, [], ◌∷◌, ◌++◌, All, length, arith,
}
use agent_pay_sentinel.Classifier.{
  Circuit, ClassifierSettings, Surroundings, Reply, timed_out, api_error, truncated, unparseable,
  parsed, degraded_result, reset_circuit, circuit_is_open, record_transport_failure, answered,
  classify,
}
use agent_pay_sentinel.Classifier.Breaker.{
  Round, transport_failure, wants_call, reply_to, circuit_after, called,
}

module _ (upper strip : String → String) (cfg : ClassifierSettings) where
  -- The call is wanted, and the API fails it.
  pub record Fails (r : Round) : Type 0 where
    pub wanted : wants_call upper strip cfg r ≡ true
    pub failed : transport_failure (reply_to upper strip cfg r) ≡ true

  answered_failure :
      (w : Surroundings) (reply : Reply) (c : Circuit)
      → transport_failure reply ≡ true
      → (answered upper cfg w reply c).1 ≡ record_transport_failure cfg.breaker w.later c
  unfolding answered
  answered_failure w timed_out c h = refl
  answered_failure w (api_error name) c h = refl
  answered_failure w truncated c h = cc
  answered_failure w unparseable c h = cc
  answered_failure w (parsed payload) c h = cc

  failed_call :
      (r : Round) (c : Circuit)
      → Fails r
      → circuit_is_open r.w.now c ≡ false
      → (classify upper cfg r.w strip r.fields c).1
        ≡ record_transport_failure cfg.breaker r.w.later c
  unfolding classify
  failed_call r c f shut =
      ground (arith, f.wanted, answered_failure r.w (reply_to upper strip cfg r) c f.failed)

  -- Below the threshold the breaker only counts.
  counting :
      (rs : List Round) (k : ℕ)
      → All Fails rs
      → k + length rs < cfg.breaker.circuit_failures
      → circuit_after upper strip cfg rs (record { open_until = 0; consecutive_failures = k })
        ≡ record { open_until = 0; consecutive_failures = k + length rs }
  unfolding circuit_after record_transport_failure circuit_is_open
  counting [] k f h = ground arith
  counting (r ∷ rs) k (f, fs) h =
      let c : Circuit = record { open_until = 0; consecutive_failures = k } in
      let step : (classify upper cfg r.w strip r.fields c).1
          ≡ record { open_until = 0; consecutive_failures = suc k } =
        ground (arith, failed_call r c f) in
      rw step (ground (arith, counting rs (suc k) fs))

  after-append :
      (rs : List Round) (r : Round) (c : Circuit)
      → circuit_after upper strip cfg (rs ++ (r ∷ [])) c
        ≡ (classify upper cfg r.w strip r.fields (circuit_after upper strip cfg rs c)).1
  unfolding circuit_after
  after-append [] r c = refl
  after-append (q ∷ rs) r c = after-append rs r (classify upper cfg q.w strip q.fields c).1

  tripped :
      (rs : List Round) (last : Round)
      → All Fails rs
      → Fails last
      → suc (length rs) ≡ cfg.breaker.circuit_failures
      → circuit_after upper strip cfg (rs ++ (last ∷ [])) reset_circuit
        ≡ record { open_until = last.w.later + cfg.breaker.cooldown; consecutive_failures = 0 }
  unfolding record_transport_failure circuit_is_open
  tripped rs last fs f h =
      let c : Circuit = record { open_until = 0; consecutive_failures = length rs } in
      rw (after-append rs last reset_circuit, counting rs 0 fs (omega arith))
        (ground (arith, failed_call last c f))

  -- After as many failed calls in a row as the threshold says, the API is left alone until the
  -- cooldown has passed since the last of them: a call that is wanted meanwhile is answered with the
  -- degraded result of an open circuit, without calling, and the breaker stays as it is.
  pub outage_is_skipped :
      (rs : List Round) (last next : Round)
      → All Fails rs
      → Fails last
      → suc (length rs) ≡ cfg.breaker.circuit_failures
      → wants_call upper strip cfg next ≡ true
      → next.w.now < last.w.later + cfg.breaker.cooldown
      → let c = circuit_after upper strip cfg (rs ++ (last ∷ [])) reset_circuit in
        classify upper cfg next.w strip next.fields c
        ≡ ((degraded_result "circuit_open" cfg.groq_model, false), c)
  unfolding classify circuit_is_open
  outage_is_skipped rs last next fs f h wanted early =
      rw (tripped rs last fs f h) (ground (arith, wanted))

  -- After the cooldown one failed trial does not open the breaker again, unless the threshold is one:
  -- the count starts anew, and the next call that is wanted goes to the API.
  pub failed_trial_is_repeated :
      (rs : List Round) (last trial next : Round)
      → All Fails rs
      → Fails last
      → suc (length rs) ≡ cfg.breaker.circuit_failures
      → 2 ≤ cfg.breaker.circuit_failures
      → last.w.later + cfg.breaker.cooldown ≤ trial.w.now
      → Fails trial
      → trial.w.now ≤ next.w.now
      → wants_call upper strip cfg next ≡ true
      → let c = circuit_after upper strip cfg (rs ++ (last ∷ [])) reset_circuit in
        let c' = (classify upper cfg trial.w strip trial.fields c).1 in
        (classify upper cfg next.w strip next.fields c').0.1 ≡ true
  unfolding record_transport_failure circuit_is_open
  failed_trial_is_repeated rs last trial next fs f h two passed ft later wanted =
      let c : Circuit = record {
        open_until = last.w.later + cfg.breaker.cooldown;
        consecutive_failures = 0;
      } in
      let step : (classify upper cfg trial.w strip trial.fields c).1
          ≡ record c { consecutive_failures = 1 } =
        ground (arith, failed_call trial c ft) in
      rw
        (
          tripped rs last fs f h,
          step,
          called upper strip cfg next (record c { consecutive_failures = 1 }),
          wanted,
        )
        (ground arith)
