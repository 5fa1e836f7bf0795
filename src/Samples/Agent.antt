-- ===== src/Samples/Agent.antt =====
-- The theorems about the simulated agent at a sample run.
use agent_pay_sentinel.Prelude.{
  ◌<>◌, ◌≡◌, refl, ◌⊎◌, length, lookup, true, false, none, some, [], ◌∷◌,
}
use agent_pay_sentinel.AgentRun.{
  Product, Submission, World, Shop, Deps, GatewayResponse, search_catalog, add, already_fetched,
  fetch_merchant_page, latest_decision, product_search, propose_payment_intent, simulator_error,
}
use agent_pay_sentinel.AgentRun.Graph.{
  interrupted, invoke, resume, run, continue_with, perform, successor, proceed, route_on_decision,
}
use agent_pay_sentinel.AgentRun.Nodes.{
  ShopperState, truthy, search, and_then, narrated, select_product, build_cart, chosen, carted,
  propose_payment, pay, intent_of, await_approval, handle_gateway_response, key_or,
  submit_approved_payment,
}
use agent_pay_sentinel.Slices.{prefix}
use agent_pay_sentinel.AgentRun.Offline.{approved_same_payment}
use agent_pay_sentinel.AgentRun.Payments.{rekeyed}
use agent_pay_sentinel.AgentRun.Resumed.{approving, resumed_once}
use agent_pay_sentinel.AgentRun.Service.{Run, Runs, raised, Approval, granted, approve_and_resume}
use agent_pay_sentinel.Result.{err}
use agent_pay_sentinel.AgentRun.Shape.{Settles, invoke-Settles}

abbrev product : Product
product = record {
  sku = "BEAN-ETH-1KG";
  name = "Ethiopian whole bean 1kg";
  unit_price = "1250.00";
  merchant_id = "merch_beanery";
  merchant_verified = true;
  category = "grocery";
  page_url = "https://beanery.example.com/";
  source_type = "official_api";
}

abbrev shop : Shop
shop = record {
  catalog = ("BEAN-ETH-1KG", product) ∷ [];
  poisoned = product;
  pages = [];
  lower = λ s. s;
  split = λ s. s ∷ [];
  within = λ term text. true;
}

abbrev response : GatewayResponse
response = record {
  decision = some "REQUIRE_APPROVAL";
  reason_codes = [];
  payment_authorization_id = none;
}

abbrev deps : Deps
deps = record {
  shop = shop;
  offline = true;
  adversarial = false;
  idempotency_key = none;
  correlation_id = none;
  agent_id = "a";
  user_id = "u";
  delegation_id = "d";
  gateway = λ sent s. some response;
  crew = λ task w. (none, w);
  uuid = λ n. "0";
  str_decimal = λ s. s;
  upper = λ s. s;
  total = λ price quantity. price;
}

abbrev start : ShopperState
start = record {
  instruction = "coffee";
  requested_quantity = none;
  chosen_sku = none;
  page_url = none;
  page_content = none;
  merchant_id = none;
  merchant_verified = none;
  source_type = none;
  cart = none;
  total = none;
  currency = none;
  review_verdict = none;
  decision = none;
  reason_codes = [];
  gateway_response = none;
  approval_request_id = none;
  approval_token = none;
  status = "running";
}

-- the state in which the run waits
abbrev waiting : ShopperState
waiting = record start {
  chosen_sku = some "BEAN-ETH-1KG";
  page_url = some "https://beanery.example.com/";
  page_content = some "";
  merchant_id = some "merch_beanery";
  merchant_verified = some true;
  source_type = some "official_api";
  cart = some (
      record {
        sku = "BEAN-ETH-1KG";
        name = "Ethiopian whole bean 1kg";
        quantity = 1;
        unit_price = "1250.00";
      }
      ∷ []);
  total = some "1250.00";
  currency = some "INR";
  review_verdict = some "APPROVE";
  decision = some "REQUIRE_APPROVAL";
  gateway_response = some response;
  approval_request_id = some "";
  status = "awaiting_approval";
}

abbrev quiet : World
quiet = record { steps = []; submissions = [] }

invoke-Settles_example : Settles deps (invoke deps start quiet)
invoke-Settles_example = invoke-Settles deps start quiet

waits : (invoke deps start quiet).0 ≡ interrupted waiting
unfolding invoke run continue_with perform search and_then narrated select_product search_catalog
    successor build_cart chosen lookup carted propose_payment pay intent_of proceed
    route_on_decision await_approval handle_gateway_response key_or add already_fetched
    fetch_merchant_page latest_decision product_search propose_payment_intent prefix
waits = refl

approved_same_payment_example :
    let w₁ = (invoke deps start quiet).1 in
    let w₂ = (resume deps "token" waiting w₁).1 in
    (s : Submission) × (w₁.submissions ≡ s ∷ [])
    × ((w₂.submissions ≡ w₁.submissions)
        ⊎ (w₂.submissions
            ≡ rekeyed
                ("crew-approved-" <> deps.uuid (length w₁.submissions))
                (truthy (some "token"))
                s
              ∷ w₁.submissions))
approved_same_payment_example = approved_same_payment deps start waiting quiet "token" refl waits

abbrev waiting_run : Run
waiting_run = record {
  run_id = "run_1";
  scenario = "happy_path";
  correlation_id = "crew_1";
  deps = deps;
  transcript = quiet;
  state = record waiting { approval_request_id = some "ar_1" };
  status = "awaiting_approval";
  provider_calls_before = some 0;
  provider_calls_after = some 0;
}

abbrev approval : Approval
approval = record { grant = λ id. granted (some "token"); calls_after = some 1 }

abbrev runs : Runs
runs = ("run_1", waiting_run) ∷ []

resumed_once_example :
    let now =
      (approve_and_resume approval "run_9" (approve_and_resume approval "run_1" runs).1).1 in
    approve_and_resume approval "run_1" now
    ≡ (err (raised (simulator_error "RUN_NOT_AWAITING_APPROVAL")), now)
unfolding approve_and_resume lookup run continue_with perform submit_approved_payment and_then
    chosen pay intent_of propose_payment_intent successor
resumed_once_example =
    resumed_once approval approval "run_1" runs _ (approving approval "run_9" ∷ []) refl tt
