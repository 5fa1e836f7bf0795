-- ===== src/AgentRun/Graph.antt =====
-- The agent's graph, `build_graph` of apps/agent-simulator/agent_simulator/graph.py: its edges, the
-- interrupt before the approved payment, and a run of LangGraph over them.
use agent_pay_sentinel.Prelude.{
  ℕ, zero, suc, String, Bool, true, false, Option, none, some, ◌==◌, if◌then◌else◌,
}
use agent_pay_sentinel.AgentRun.{Deps, Raised, World}
use agent_pay_sentinel.AgentRun.Nodes
use agent_pay_sentinel.AgentRun.Nodes.{ShopperState, Outcome, get_or}
use agent_pay_sentinel.Result.{ok, err}

pub data Node : Type 0 where
  search build_cart propose_payment handle_gateway_response blocked await_approval
        submit_approved_payment completed :
      Node

-- The node that runs after the decision.
unfoldable pub route_on_decision : ShopperState → Node
route_on_decision st =
    let decision = get_or st.decision "ERROR" in
    if decision == "ALLOW"
    then completed
    else if decision == "REQUIRE_APPROVAL"
    then await_approval
    else blocked

-- The edges; `none` is END.
unfoldable pub successor : Node → ShopperState → Option Node
unfolding route_on_decision
successor search st = some build_cart
successor build_cart st = some propose_payment
successor propose_payment st = some handle_gateway_response
successor handle_gateway_response st = some (route_on_decision st)
successor blocked st = none
successor await_approval st = some submit_approved_payment
successor submit_approved_payment st = none
successor completed st = none

unfoldable pub perform : Node → Deps → ShopperState → World → Outcome
perform search d st w = Nodes.search d st w
perform build_cart d st w = Nodes.build_cart d st w
perform propose_payment d st w = Nodes.propose_payment d st w
perform handle_gateway_response d st w = Nodes.handle_gateway_response d st w
perform blocked d st w = Nodes.blocked d st w
perform await_approval d st w = Nodes.await_approval d st w
perform submit_approved_payment d st w = Nodes.submit_approved_payment d st w
perform completed d st w = Nodes.completed d st w

-- How an `invoke` ends: at END, before a node of `interrupt_before`, by an exception, or, out of fuel,
-- not at all.
pub data Ended : Type 0 where
  finished : ShopperState → Ended
  interrupted : ShopperState → Ended
  failed : Raised → Ended
  out_of_fuel : Ended

abbrev pub interrupt_before : Node → Bool
interrupt_before submit_approved_payment = true
interrupt_before _ = false

unfoldable pub proceed :
    (Node → ShopperState → World → Ended × World)
    → ShopperState
    → Option Node
    → World
    → Ended × World
proceed rest st none w = (finished st, w)
proceed rest st (some n) w = if interrupt_before n then (interrupted st, w) else rest n st w

unfoldable pub continue_with :
    (Node → ShopperState → World → Ended × World) → Node → Outcome → Ended × World
unfolding proceed
continue_with rest n (err e, w) = (failed e, w)
continue_with rest n (ok st, w) = proceed rest st (successor n st) w

-- a run from a node on
unfoldable pub run : ℕ → Deps → Node → ShopperState → World → Ended × World
run zero d n st w = (out_of_fuel, w)
run (suc fuel) d n st w = continue_with (run fuel d) n (perform n d st w)

abbrev pub longest : ℕ
longest = 5

-- `graph.invoke(initial)`
unfoldable pub invoke : Deps → ShopperState → World → Ended × World
invoke d st w = run longest d search st w

-- `graph.update_state(...)` with the token, and `graph.invoke(None)` on the interrupted run
unfoldable pub resume : Deps → String → ShopperState → World → Ended × World
resume d token st w =
    run longest d submit_approved_payment (record st { approval_token = some token }) w
