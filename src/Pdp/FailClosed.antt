-- ===== src/Pdp/FailClosed.antt =====
-- gateway/pdp.py: how each answer of OPA is read.
use agent_pay_sentinel.Prelude.{
  String, ◌≡◌, refl, ◌≢◌, ◌⊎◌, inl, inr, true, false, Option, none, some, [], ◌∷◌, arith, eq_iff,
}
use agent_pay_sentinel.Schemas.{Decision, block, value}
use agent_pay_sentinel.Pdp.{
  PolicyInput, PdpResult, OpaReply, OpaResult, http_error, invalid_json, undefined, result,
  parse_decision, interpret, evaluate, from_result, decided,
}

-- OPA answered with a result object whose decision is one of the three texts.
abbrev pub Answered : OpaReply → Decision → Type 0
Answered reply d = (r : OpaResult) × (reply ≡ result r) × (r.decision ≡ some (value d))

parse_decision-value : (s : String) (d : Decision) → parse_decision s ≡ some d → s ≡ value d
unfolding parse_decision
parse_decision-value s d h =
    ground (arith, eq_iff s "ALLOW", eq_iff s "REQUIRE_APPROVAL", eq_iff s "BLOCK")

abbrev Outcome : OpaReply → PdpResult → Type 0
Outcome reply v =
    (Answered reply v.decision × (v.pdp_available ≡ true))
    ⊎ ((v.decision ≡ block)
        × (v.pdp_available ≡ false)
        × (v.deny_reasons ≡ "PDP_UNAVAILABLE_FAIL_CLOSED" ∷ []))

decided_cases :
    (cut : String → String) (declared s : String) (r : OpaResult) (o : Option Decision)
    → r.decision ≡ some s
    → parse_decision s ≡ o
    → Outcome (result r) (decided cut declared r o)
unfolding decided
decided_cases cut declared s r none e p = inr (refl, refl, refl)
decided_cases cut declared s r (some d) e p =
    inl ((r, refl, cc (e, parse_decision-value s d p)), refl)

from_result_cases :
    (cut : String → String) (declared : String) (r : OpaResult) (o : Option String)
    → r.decision ≡ o
    → Outcome (result r) (from_result cut declared r o)
unfolding from_result
from_result_cases cut declared r none e = inr (refl, refl, refl)
from_result_cases cut declared r (some s) e =
    decided_cases cut declared s r (parse_decision s) e refl

interpret_cases :
    (cut : String → String) (declared : String) (reply : OpaReply)
    → Outcome reply (interpret cut declared reply)
unfolding interpret
interpret_cases cut declared (http_error name) = inr (refl, refl, refl)
interpret_cases cut declared invalid_json = inr (refl, refl, refl)
interpret_cases cut declared undefined = inr (refl, refl, refl)
interpret_cases cut declared (result r) = from_result_cases cut declared r r.decision refl

-- Anything but a BLOCK is OPA's own answer; every failure of the call, an answer with no decision
-- and an unknown decision are a BLOCK that says that the decision point was not available.
pub fails_closed :
    (cut : String → String) (opa : PolicyInput → OpaReply) (input : PolicyInput)
    → let v = evaluate cut opa input in
      (v.decision ≢ block → Answered (opa input) v.decision × (v.pdp_available ≡ true))
      × (((d : Decision) → ¬ Answered (opa input) d)
          → (v.decision ≡ block)
            × (v.pdp_available ≡ false)
            × (v.deny_reasons ≡ "PDP_UNAVAILABLE_FAIL_CLOSED" ∷ []))
unfolding evaluate
fails_closed cut opa input =
    elim (interpret_cases cut input.context.facts.policy_version (opa input)) [
      | inl (a, up) ↦ (λ h. (a, up), λ h. absurd (h _ a))
      | inr (b, down, why) ↦ (λ h. absurd (h b), λ h. (b, down, why))
    ]
