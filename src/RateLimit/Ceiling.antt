-- ===== src/RateLimit/Ceiling.antt =====
-- gateway/ratelimit.py over one request, and over sequences of requests.
use agent_pay_sentinel.Prelude.{
  ℕ, ◌≤◌, ◌<◌, String, ◌≡◌, refl, ◌≢◌, ◌↔◌, ne_of_eq-false, true, false, none, List, [], ◌∷◌, arith,
  lookup, ◌==◌, eq_iff, append-ne, Bool-cases, inl, inr,
}
use text.Mathlib.TextLemmas.{append_cancel_left}
use agent_pay_sentinel.Store.{Store, zcount_window}
use agent_pay_sentinel.Store.Window.{members, zcount-zadd_self, zcount-zadd_ne, zcount_mono}
use agent_pay_sentinel.RateLimit.{
  Settings, admitted, Faults, no_faults, Request, window_seconds, agent_key, delegation_key, over,
  add, record_request, enforce_edge_rate_limit,
}

keys_differ : (a d : String) → (delegation_key d == agent_key a) ≡ false
unfolding agent_key delegation_key
keys_differ a d = elim (Bool-cases (delegation_key d == agent_key a)) [
  | inl e ↦
      absurd
        (append-ne "agentpay:rl:d" "agentpay:rl:a" "eleg:" "gent:" d a refl refl ((eq_iff _ _).0 e))
  | inr e ↦ e
]

agent_key-ne : (a b : String) → a ≢ b → (agent_key a == agent_key b) ≡ false
unfolding agent_key
agent_key-ne a b ne = elim (Bool-cases (agent_key a == agent_key b)) [
  | inl e ↦ absurd (ne (append_cancel_left "agentpay:rl:agent:" a b ((eq_iff _ _).0 e)))
  | inr e ↦ e
]

module _ {V : Type 0} where
  abbrev pub usage : String → ℕ → Store V → ℕ
  usage agent now s = zcount_window (agent_key agent) window_seconds now s

  add_within :
      (agent : String) (limit now : ℕ) (fresh : String) (s : Store V)
      → lookup fresh (members (agent_key agent) s) ≡ none
      → over (agent_key agent) limit now s ≡ false
      → usage agent now s ≤ limit
      → usage agent now (add (agent_key agent) limit fresh now s) ≤ limit
  unfolding add over
  add_within agent limit now fresh s new free h =
      ground (arith, zcount-zadd_self (agent_key agent) fresh window_seconds now s)

  add_elsewhere :
      (key agent : String) (limit now : ℕ) (fresh : String) (s : Store V)
      → (key == agent_key agent) ≡ false
      → usage agent now (add key limit fresh now s) ≡ usage agent now s
  unfolding add
  add_elsewhere key agent limit now fresh s ne =
      ground
        (arith, zcount-zadd_ne key (agent_key agent) fresh window_seconds window_seconds now now s)

  -- A request that is not admitted leaves the store as it was.
  pub rejected_unchanged :
      (cfg : Settings) (f : Faults) (r : Request) (s : Store V)
      → (enforce_edge_rate_limit cfg f r s).0 ≢ admitted
      → (enforce_edge_rate_limit cfg f r s).1 ≡ s
  unfolding enforce_edge_rate_limit record_request
  rejected_unchanged cfg f r s h = ground arith

  -- Where no call of the store raises, an enabled limit admits a request exactly when each
  -- positive ceiling is above what the last minute holds.
  pub admitted_iff :
      (cfg : Settings) (r : Request) (s : Store V)
      → cfg.enabled ≡ true
      → ((enforce_edge_rate_limit cfg no_faults r s).0 ≡ admitted) ↔ (
          (0 < cfg.agent_per_min
            → zcount_window (agent_key r.agent_id) window_seconds r.now s < cfg.agent_per_min)
          × (0 < cfg.delegation_per_min
              → zcount_window (delegation_key r.delegation_id) window_seconds r.now s
                < cfg.delegation_per_min))
  unfolding enforce_edge_rate_limit record_request
  admitted_iff cfg r s on =
      (λ h. (λ p. ground arith, λ p. ground arith), λ h. ground (arith, h.0, h.1))

  -- Fails open: if the store cannot count the agent's requests, the request is admitted and
  -- nothing is recorded, whatever the window holds.
  pub fails_open :
      (cfg : Settings) (f : Faults) (r : Request) (s : Store V)
      → f.count_agent ≡ true
      → 0 < cfg.agent_per_min
      → enforce_edge_rate_limit cfg f r s ≡ (admitted, s)
  unfolding enforce_edge_rate_limit
  fails_open cfg f r s fault p = ground arith

  recorded_within :
      (cfg : Settings) (r : Request) (agent : String) (s : Store V)
      → lookup r.agent_member (members (agent_key r.agent_id) s) ≡ none
      → over (agent_key r.agent_id) cfg.agent_per_min r.now s ≡ false
      → usage agent r.now s ≤ cfg.agent_per_min
      → usage agent r.now (record_request cfg no_faults r s).1 ≤ cfg.agent_per_min
  unfolding record_request
  recorded_within cfg r agent s new free h =
      rw
        (add_elsewhere (delegation_key r.delegation_id) agent cfg.delegation_per_min r.now
          r.delegation_member s' (keys_differ agent r.delegation_id))
        (elim (Bool-cases (r.agent_id == agent)) [
          | inl e ↦ own ((eq_iff r.agent_id agent).0 e)
          | inr e ↦
              rw
                (add_elsewhere (agent_key r.agent_id) agent cfg.agent_per_min r.now r.agent_member s
                  (agent_key-ne r.agent_id agent (ne_of_eq-false _ _ e)))
                h
        ])
    where
      s' : Store V
      s' = add (agent_key r.agent_id) cfg.agent_per_min r.agent_member r.now s

      own : r.agent_id ≡ agent → usage agent r.now s' ≤ cfg.agent_per_min
      own e =
          ground (arith, add_within r.agent_id cfg.agent_per_min r.now r.agent_member s new free)

  -- One request: whoever it is of, no agent goes above its ceiling.
  enforce_within :
      (cfg : Settings) (r : Request) (agent : String) (s : Store V)
      → lookup r.agent_member (members (agent_key r.agent_id) s) ≡ none
      → usage agent r.now s ≤ cfg.agent_per_min
      → usage agent r.now (enforce_edge_rate_limit cfg no_faults r s).1 ≤ cfg.agent_per_min
  unfolding enforce_edge_rate_limit
  enforce_within cfg r agent s new h = ground (arith, recorded_within cfg r agent s new)

  -- The requests come one after the other, and each new member's name is fresh.
  abbrev pub InOrder : Settings → ℕ → List Request → Store V → Type 0
  InOrder cfg t [] s = Unit
  InOrder cfg t (r ∷ rs) s =
      (t ≤ r.now)
      × (lookup r.agent_member (members (agent_key r.agent_id) s) ≡ none)
      × InOrder cfg r.now rs (enforce_edge_rate_limit cfg no_faults r s).1

  -- The time and the store behind the last request.
  pub serve : Settings → ℕ → List Request → Store V → ℕ × Store V
  serve cfg t [] s = (t, s)
  serve cfg t (r ∷ rs) s = serve cfg r.now rs (enforce_edge_rate_limit cfg no_faults r s).1

  -- From a store within the ceiling, after any sequence of requests with no fault of the store, no
  -- agent has more requests on record in the last minute than its ceiling.
  pub ceiling_kept :
      (cfg : Settings) (t : ℕ) (rs : List Request) (agent : String) (s : Store V)
      → InOrder cfg t rs s
      → usage agent t s ≤ cfg.agent_per_min
      → let (now, s') = serve cfg t rs s in usage agent now s' ≤ cfg.agent_per_min
  unfolding serve
  ceiling_kept cfg t [] agent s o h = h
  ceiling_kept cfg t (r ∷ rs) agent s o h =
      ceiling_kept cfg r.now rs agent (enforce_edge_rate_limit cfg no_faults r s).1 o.2 (
        enforce_within cfg r agent s o.1
          (omega (arith, zcount_mono (agent_key agent) window_seconds t r.now s o.0)))
