-- ===== src/RateLimit.antt =====
-- The edge rate limit, gateway/ratelimit.py: a ceiling for each agent and each delegation on the
-- requests of one minute.
pub mod Ceiling
use agent_pay_sentinel.Prelude.{
  ℕ, ◌+◌, String, ◌<>◌, Bool, true, false, ◌&&◌, ltb, leb, if◌then◌else◌,
}
use agent_pay_sentinel.Store.{Store, zadd_window, zcount_window}

pub record Settings : Type 0 where
  pub enabled : Bool
  pub agent_per_min : ℕ
  pub delegation_per_min : ℕ

abbrev pub window_seconds : ℕ
window_seconds = 60

pub record RateLimitError : Type 0 where
  pub scope : String
  pub limit : ℕ
  pub retry_after_seconds : ℕ

pub data Outcome : Type 0 where
  admitted : Outcome
  rejected : RateLimitError → Outcome

unfoldable pub agent_key : String → String
agent_key agent_id = "agentpay:rl:agent:" <> agent_id

unfoldable pub delegation_key : String → String
delegation_key delegation_id = "agentpay:rl:deleg:" <> delegation_id

-- Which of the four calls of the store raise, in their order.
pub record Faults : Type 0 where
  pub count_agent : Bool
  pub count_delegation : Bool
  pub add_agent : Bool
  pub add_delegation : Bool

abbrev pub no_faults : Faults
no_faults = record {
  count_agent = false;
  count_delegation = false;
  add_agent = false;
  add_delegation = false;
}

-- What the caller brings: who it is, the time, and the `uuid4`s that name the two new members.
pub record Request : Type 0 where
  pub agent_id : String
  pub delegation_id : String
  pub now : ℕ
  pub agent_member : String
  pub delegation_member : String

error : String → ℕ → Outcome
error scope limit =
    rejected (record { scope = scope; limit = limit; retry_after_seconds = window_seconds })

module _ {V : Type 0} where
  over : String → ℕ → ℕ → Store V → Bool
  over key limit now s = ltb 0 limit && leb limit (zcount_window key window_seconds now s)

  add : String → ℕ → String → ℕ → Store V → Store V
  add key limit fresh now s =
      if ltb 0 limit then (zadd_window key window_seconds fresh now s).1 else s

  -- The loop that records. A call that raises ends the `try`; what was recorded stays.
  record_request : Settings → Faults → Request → Store V → Outcome × Store V
  unfolding add
  record_request cfg f r s =
      if f.add_agent && ltb 0 cfg.agent_per_min
      then (admitted, s)
      else let s' = add (agent_key r.agent_id) cfg.agent_per_min r.agent_member r.now s in
        if f.add_delegation && ltb 0 cfg.delegation_per_min then (admitted, s') else (
          admitted,
          add (delegation_key r.delegation_id) cfg.delegation_per_min r.delegation_member r.now s',
        )

  check_delegation : Settings → Faults → Request → Store V → Outcome × Store V
  unfolding over error record_request
  check_delegation cfg f r s =
      if f.count_delegation && ltb 0 cfg.delegation_per_min
      then (admitted, s)
      else if over (delegation_key r.delegation_id) cfg.delegation_per_min r.now s
      then (error ("delegation " <> r.delegation_id) cfg.delegation_per_min, s)
      else record_request cfg f r s

  unfoldable pub enforce_edge_rate_limit : Settings → Faults → Request → Store V → Outcome × Store V
  unfolding check_delegation over error
  enforce_edge_rate_limit cfg f r s =
      if cfg.enabled
      then (if f.count_agent && ltb 0 cfg.agent_per_min
          then (admitted, s)
          else if over (agent_key r.agent_id) cfg.agent_per_min r.now s
          then (error ("agent " <> r.agent_id) cfg.agent_per_min, s)
          else check_delegation cfg f r s)
      else (admitted, s)
