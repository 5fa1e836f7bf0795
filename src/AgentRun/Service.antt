-- ===== src/AgentRun/Service.antt =====
-- The runs of the simulator, apps/agent-simulator/agent_simulator/service.py: the registry of runs,
-- `start_run`, and `approve_and_resume`. The seeding of the control plane, the approval at the gateway
-- and the provider's counter are arguments. The graph's checkpoint of a run is the run's state.
use agent_pay_sentinel.Prelude.{
  ℕ, ◌%◌, String, not, Bool, Option, none, some, [], Dict, lookup, insert, eqb, ◌<>◌, ◌==◌,
  if◌then◌else◌,
}
use agent_pay_sentinel.AgentRun.{Deps, World, Raised, simulator_error, note, plain, add}
use agent_pay_sentinel.AgentRun.Graph.{
  Ended, finished, interrupted, failed, out_of_fuel, submit_approved_payment, run, longest, invoke,
}
use agent_pay_sentinel.AgentRun.Nodes.{ShopperState, get_or}
use agent_pay_sentinel.Result.{Result, ok, err}
use agent_pay_sentinel.Slices.{prefix}

pub record Run : Type 0 where
  pub run_id : String
  pub scenario : String
  pub correlation_id : String
  pub deps : Deps
  pub transcript : World
  pub state : ShopperState
  pub status : String
  pub provider_calls_before : Option ℕ
  pub provider_calls_after : Option ℕ

abbrev pub Runs : Type 0
Runs = Dict Run

-- What a call raises: an error of the simulator or of the graph, or one of the HTTP client. A graph that
-- is out of fuel is kept apart.
pub data Failure : Type 0 where
  raised : Raised → Failure
  http_error : Failure
  endless : Failure

abbrev pub or_text : String → String → String
or_text s default = if s == "" then default else s

-- the values of the state that an `invoke` returns
unfoldable pub returned : Ended → Result Failure ShopperState
returned (finished st) = ok st
returned (interrupted st) = ok st
returned (failed e) = err (raised e)
returned out_of_fuel = err endless

-- What one call of `start_run` is given, and what it meets: the new ids, the number of the run, whether
-- the seeding succeeded, and the provider's counter before and after.
pub record Start : Type 0 where
  pub scenario : String
  pub instruction : String
  pub adversarial : Bool
  pub quantity : Option ℕ
  pub correlation_id : Option String
  pub settings : Deps
  pub run_id : String
  pub uuid : String
  pub number : ℕ
  pub seeded : Bool
  pub calls_before : Option ℕ
  pub calls_after : Option ℕ

demo_quantity : ℕ → ℕ
demo_quantity n = if eqb n 0 then 2 else if eqb n 1 then 3 else if eqb n 2 then 1 else 4

-- `quantity or _DEMO_QUANTITIES[...]`
quantity_or : Option ℕ → ℕ → ℕ
unfolding demo_quantity
quantity_or none number = demo_quantity (number % 4)
quantity_or (some q) number = if eqb q 0 then demo_quantity (number % 4) else q

initial : Start → ShopperState
unfolding quantity_or
initial s = record {
  instruction = s.instruction;
  requested_quantity = some (quantity_or s.quantity s.number);
  chosen_sku = none;
  page_url = none;
  page_content = none;
  merchant_id = none;
  merchant_verified = none;
  source_type = none;
  cart = none;
  total = none;
  currency = none;
  review_verdict = none;
  decision = none;
  reason_codes = [];
  gateway_response = none;
  approval_request_id = none;
  approval_token = none;
  status = "running";
}

-- The correlation id of the run: the caller's, or a new one.
correlation : Start → String
correlation s = prefix 128 (or_text (get_or s.correlation_id "") ("crew_" <> prefix 16 s.uuid))

deps_of : Start → Deps
unfolding correlation
deps_of s = record s.settings {
  adversarial = s.adversarial;
  idempotency_key = none;
  correlation_id = some (correlation s);
}

first_steps : Deps → World
first_steps d =
    let empty : World = record { steps = []; submissions = [] } in
    if d.offline then add (plain note "offline_mode") empty else empty

unfoldable pub started : Start → World → ShopperState → Run
unfolding deps_of correlation
started s w st = record {
  run_id = s.run_id;
  scenario = s.scenario;
  correlation_id = correlation s;
  deps = deps_of s;
  transcript = w;
  state = st;
  status =
      if get_or st.decision "" == "REQUIRE_APPROVAL"
      then "awaiting_approval"
      else or_text st.status "running";
  provider_calls_before = s.calls_before;
  provider_calls_after = s.calls_after;
}

unfoldable pub keep_started :
    Start → Runs → Result Failure ShopperState × World → Result Failure Run × Runs
unfolding started
keep_started s runs (err e, w) = (err e, runs)
keep_started s runs (ok st, w) = let r = started s w st in (ok r, insert s.run_id r runs)

-- A run whose graph raises is not stored.
unfoldable pub start_run : Start → Runs → Result Failure Run × Runs
unfolding initial deps_of first_steps keep_started returned
start_run s runs =
    if s.seeded
    then (let (e, w) = invoke (deps_of s) (initial s) (first_steps (deps_of s)) in
        keep_started s runs (returned e, w))
    else (err (raised (simulator_error "GATEWAY_SEED_FAILED")), runs)

-- The answer to the grant: an error, or a body that may hold a token.
pub data Granted : Type 0 where
  refused : Granted
  granted : Option String → Granted

-- What one approval meets: the gateway, and the provider's counter afterwards.
pub record Approval : Type 0 where
  pub grant : String → Granted
  pub calls_after : Option ℕ

-- the status of a run that was resumed
unfoldable pub resumed : Approval → Run → World → ShopperState → Run
resumed a r w st = record r {
  transcript = w;
  state = st;
  status = or_text st.status "completed";
  provider_calls_after = elim a.calls_after [ none ↦ r.provider_calls_after | some n ↦ some n ];
}

-- Where the graph raises, the run keeps its status, with what the transcript got.
unfoldable pub keep_resumed :
    Approval → String → Run → Runs → Result Failure ShopperState × World → Result Failure Run × Runs
unfolding resumed
keep_resumed a run_id r runs (err e, w) = (err e, insert run_id (record r { transcript = w }) runs)
keep_resumed a run_id r runs (ok st, w) =
    let r' = resumed a r w st in (ok r', insert run_id r' runs)

-- `update_state` with the token and `invoke` on the interrupted graph
unfoldable pub resume_with : Option String → Run → World → Ended × World
resume_with token r w =
    run longest r.deps submit_approved_payment (record r.state { approval_token = token }) w

unfoldable pub on_grant : Approval → String → Run → Runs → Granted → Result Failure Run × Runs
unfolding keep_resumed resume_with returned
on_grant a run_id r runs refused = (err http_error, runs)
on_grant a run_id r runs (granted token) =
    let (e, w) = resume_with token r (add (plain note "approval_granted") r.transcript) in
    keep_resumed a run_id r runs (returned e, w)

unfoldable pub approve_found : Approval → String → Option Run → Runs → Result Failure Run × Runs
unfolding on_grant
approve_found a run_id none runs = (err (raised (simulator_error "UNKNOWN_RUN")), runs)
approve_found a run_id (some r) runs =
    if not (r.status == "awaiting_approval")
    then (err (raised (simulator_error "RUN_NOT_AWAITING_APPROVAL")), runs)
    else (let request = get_or r.state.approval_request_id "" in
        if request == ""
        then (err (raised (simulator_error "NO_APPROVAL_REQUEST")), runs)
        else on_grant a run_id r runs (a.grant request))

unfoldable pub approve_and_resume : Approval → String → Runs → Result Failure Run × Runs
unfolding approve_found
approve_and_resume a run_id runs = approve_found a run_id (lookup run_id runs) runs
