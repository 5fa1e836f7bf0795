-- ===== src/Classifier/Breaker.antt =====
-- gateway/analyzer/llm.py: the circuit breaker over a sequence of calls of `classify`.
use agent_pay_sentinel.Prelude.{
  ℕ, ◌+◌, ◌≤◌, String, ◌≡◌, Bool, true, false, not, ◌&&◌, List, [], ◌∷◌, Dict, All, arith, ◌==◌,
  max,
}
use agent_pay_sentinel.Classifier.{
  Circuit, ClassifierSettings, Surroundings, Reply, timed_out, api_error, truncated, unparseable,
  parsed, no_content, reset_circuit, circuit_is_open, record_transport_failure, record_success,
  answered, classify, build_data_block,
}

-- One call of `classify`, with what it meets.
pub record Round : Type 0 where
  pub fields : Dict String
  pub w : Surroundings

abbrev pub transport_failure : Reply → Bool
transport_failure timed_out = true
transport_failure (api_error name) = true
transport_failure _ = false

module _ (upper strip : String → String) (cfg : ClassifierSettings) where
  -- There is text to classify, the classifier is on, and there is a key.
  abbrev pub wants_call : Round → Bool
  wants_call r =
      not (no_content strip r.fields) && (not cfg.offline && not (cfg.groq_api_key == ""))

  -- what the API would answer
  abbrev pub reply_to : Round → Reply
  reply_to r = r.w.create (build_data_block r.fields r.w.nonce)

  unfoldable pub circuit_after : List Round → Circuit → Circuit
  circuit_after [] c = c
  circuit_after (r ∷ rs) c = circuit_after rs (classify upper cfg r.w strip r.fields c).1

  -- the call is made exactly when it is wanted and the breaker is closed
  pub called :
      (r : Round) (c : Circuit)
      → (classify upper cfg r.w strip r.fields c).0.1
        ≡ (wants_call r && not (circuit_is_open r.w.now c))
  unfolding classify
  called r c = ground arith

  answered_open_until :
      (w : Surroundings) (reply : Reply) (c : Circuit)
      → (answered upper cfg w reply c).1.open_until
        ≤ max c.open_until (w.later + cfg.breaker.cooldown)
  unfolding answered record_transport_failure record_success
  answered_open_until w timed_out c = ground arith
  answered_open_until w (api_error name) c = ground arith
  answered_open_until w truncated c = omega arith
  answered_open_until w unparseable c = omega arith
  answered_open_until w (parsed payload) c = omega arith

  round_open_until :
      (r : Round) (c : Circuit) (t : ℕ)
      → r.w.later ≤ t
      → c.open_until ≤ t + cfg.breaker.cooldown
      → (classify upper cfg r.w strip r.fields c).1.open_until ≤ t + cfg.breaker.cooldown
  unfolding classify
  round_open_until r c t h o = ground (arith, answered_open_until r.w (reply_to r) c)

  run_open_until :
      (rs : List Round) (c : Circuit) (t : ℕ)
      → All (λ (r : Round). r.w.later ≤ t) rs
      → c.open_until ≤ t + cfg.breaker.cooldown
      → (circuit_after rs c).open_until ≤ t + cfg.breaker.cooldown
  unfolding circuit_after
  run_open_until [] c t h o = o
  run_open_until (r ∷ rs) c t (h, hs) o =
      run_open_until rs (classify upper cfg r.w strip r.fields c).1 t hs
        (round_open_until r c t h o)

  -- An outage never shuts the classifier out for good: after any calls, whatever the API did, a call
  -- with text to classify is made again once the cooldown has passed since the last of them ended,
  -- where the classifier is on and there is a key.
  pub recovers :
      (rs : List Round) (t : ℕ) (r : Round)
      → All (λ (q : Round). q.w.later ≤ t) rs
      → wants_call r ≡ true
      → t + cfg.breaker.cooldown ≤ r.w.now
      → (classify upper cfg r.w strip r.fields (circuit_after rs reset_circuit)).0.1 ≡ true
  unfolding circuit_is_open
  recovers rs t r h wants late =
      rw (called r (circuit_after rs reset_circuit), wants)
        (ground (arith, run_open_until rs reset_circuit t h))
