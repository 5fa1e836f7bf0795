-- ===== src/AgentRun/Nodes.antt =====
-- The nodes of the agent's graph, `make_nodes` of apps/agent-simulator/agent_simulator/graph.py. A
-- field that the state may lack is an option.
use agent_pay_sentinel.Prelude.{
  ℕ, String, ◌<>◌, Bool, true, false, ◌&&◌, Option, none, some, List, [], ◌∷◌, lookup, length, ltb,
  leb, eqb, elem, ◌==◌, if◌then◌else◌,
}
use Prim.Native.String.{count}
use text.Mathlib.Text.{starts_with}
use agent_pay_sentinel.AgentRun.{
  Product, CartLine, GatewayResponse, graph_transition, review, note, Submission, World, Raised,
  key_error, index_error, validation_error, simulator_error, CrewTask, research_task,
  cart_and_review_task, Deps, search_catalog, add, plain, product_search, fetch_merchant_page,
  already_fetched, propose_payment_intent, latest_decision,
}
use agent_pay_sentinel.Result.{Result, ok, err, ◌>>=◌, ◌>>◌}
use agent_pay_sentinel.Slices.{prefix, suffix}

pub record ShopperState : Type 0 where
  pub instruction : String
  pub requested_quantity : Option ℕ
  pub chosen_sku : Option String
  pub page_url : Option String
  pub page_content : Option String
  pub merchant_id : Option String
  pub merchant_verified : Option Bool
  pub source_type : Option String
  pub cart : Option (List CartLine)
  pub total : Option String
  pub currency : Option String
  pub review_verdict : Option String
  pub decision : Option String
  pub reason_codes : List String
  pub gateway_response : Option GatewayResponse
  pub approval_request_id : Option String
  pub approval_token : Option String
  pub status : String

-- `state[key]`
abbrev pub required {ℓ} : {A : Type ℓ} → String → Option A → Result Raised A
required key none = err (key_error key)
required key (some a) = ok a

-- `state.get(key, default)`
abbrev pub get_or {ℓ} : {A : Type ℓ} → Option A → A → A
get_or none default = default
get_or (some a) default = a

-- `text or None`
abbrev pub truthy : Option String → Option String
truthy none = none
truthy (some t) = if t == "" then none else some t

abbrev pub Outcome : Type 0
Outcome = Result Raised ShopperState × World

-- What follows a part of a node that may raise.
unfoldable pub and_then : {A : Type 0} → Result Raised A × World → (A → World → Outcome) → Outcome
and_then (err e, w) next = (err e, w)
and_then (ok a, w) next = next a w

transition : String → World → World
transition name w = add (plain graph_transition name) w

-- The crew of a live run, and its absence offline; a failure that is no `SimulatorError` is wrapped
-- into one.
unfoldable pub narrated : Deps → CrewTask → String → World → Result Raised String × World
narrated d task stub w =
    if d.offline
    then (ok stub, w)
    else (let (text, w') = d.crew task w in
        (elim text [ none ↦ err (simulator_error "LLM_ERROR") | some t ↦ ok t ], w'))

-- The page is on the record whether or not the crew fetched it.
unfoldable pub select_product : Deps → List Product → ShopperState → World → Outcome
unfolding transition
select_product d [] st w = (err index_error, w)
select_product d (product ∷ _) st w =
    let w₁ =
      if already_fetched product.page_url w.steps
      then w
      else fetch_merchant_page product.page_url w in
    (
      ok (record st {
        chosen_sku = some product.sku;
        page_url = some product.page_url;
        page_content = some (get_or (lookup product.page_url d.shop.pages) "");
        merchant_id = some product.merchant_id;
        merchant_verified = some product.merchant_verified;
        source_type = some product.source_type;
      }),
      transition "search" w₁,
    )

unfoldable pub search : Deps → ShopperState → World → Outcome
unfolding transition
search d st w = and_then (narrated d research_task "" (transition "search" w)) (λ text w₁.
    select_product d (search_catalog d.shop st.instruction d.adversarial) st
      (if d.offline then product_search w₁ else w₁))

-- `int(state.get("requested_quantity") or 1)`
abbrev pub quantity_of : Option ℕ → ℕ
quantity_of none = 1
quantity_of (some n) = if ltb 0 n then n else 1

unfoldable pub carted : Deps → Product → ShopperState → String → World → Outcome
unfolding add
carted d product st verdict w =
    let quantity = quantity_of st.requested_quantity in
    let line : CartLine = record {
      sku = product.sku;
      name = product.name;
      quantity = quantity;
      unit_price = product.unit_price;
    } in
    (
      ok (record st {
        cart = some (line ∷ []);
        total = some (d.total product.unit_price quantity);
        currency = some "INR";
        review_verdict = some verdict;
      }),
      add (plain review "cart_review") w,
    )

-- `CATALOG[state["chosen_sku"]]`
unfoldable pub chosen : Deps → ShopperState → Result Raised Product
chosen d st =
    required "chosen_sku" st.chosen_sku >>= (λ sku. required sku (lookup sku d.shop.catalog))

unfoldable pub build_cart : Deps → ShopperState → World → Outcome
unfolding transition
build_cart d st w =
    and_then (chosen d st, transition "build_cart" w)
      (λ product w₁.
        and_then (narrated d cart_and_review_task "APPROVE" w₁)
          (λ verdict w₂. carted d product st verdict w₂))

within : ℕ → ℕ → ℕ → Bool
within low high n = leb low n && leb n high

valid_line : CartLine → Bool
unfolding within
valid_line l =
    ltb 0 l.quantity
    && leb l.quantity 1000
    && within 1 128 (count l.sku)
    && within 1 512 (count l.name)

valid_cart : List CartLine → Bool
unfolding valid_line
valid_cart [] = true
valid_cart (l ∷ ls) = valid_line l && valid_cart ls

abbrev pub source_types : List String
source_types =
    "official_api" ∷ "verified_catalog" ∷ "scraped_page" ∷ "email" ∷ "user_upload" ∷ "unknown" ∷ []

-- `PaymentIntentArgs(...)`, with its constraints, as `SentinelClient.submit` sends it.
unfoldable pub intent_of : Deps → String → Option String → ShopperState → Result Raised Submission
unfolding valid_cart
intent_of d key token st = do
  merchant_id ← required "merchant_id" st.merchant_id
  total ← required "total" st.total
  cart ← required "cart" st.cart
  if ltb 0 (length cart)
        && valid_cart cart
        && eqb (count (get_or st.currency "INR")) 3
        && elem (get_or st.source_type "unknown") source_types
      then ok (record {
        idempotency_key = key;
        agent_id = d.agent_id;
        user_id = d.user_id;
        delegation_id = d.delegation_id;
        merchant_id = merchant_id;
        merchant_verified = get_or st.merchant_verified false;
        amount = d.str_decimal total;
        currency = d.upper (get_or st.currency "INR");
        items = cart;
        purpose = prefix 2000 st.instruction;
        source_type = get_or st.source_type "unknown";
        source_url = get_or st.page_url "";
        text = get_or st.page_content "";
        approval_token = token;
        correlation_id = elim (truthy d.correlation_id) [
          | none ↦ none
          | some c ↦ some (prefix 128 c)
        ];
      })
      else err validation_error

-- The payment tool, and the decision that it left in the transcript.
unfoldable pub pay :
    Deps → ShopperState → Result Raised Submission → World → Result Raised ShopperState × World
pay d st (err e) w = (err e, w)
pay d st (ok s) w =
    let (sent, w₁) = propose_payment_intent d s w in
    let response = latest_decision w₁.steps in
    (
      sent
          >> ok (record st {
            decision = some (elim response [ none ↦ "ERROR" | some r ↦ get_or r.decision "ERROR" ]);
            reason_codes = elim response [ none ↦ [] | some r ↦ r.reason_codes ];
            gateway_response = response;
          }),
      w₁,
    )

unfoldable pub key_or : Deps → World → String
key_or d w = get_or (truthy d.idempotency_key) ("crew-" <> d.uuid (length w.submissions))

unfoldable pub propose_payment : Deps → ShopperState → World → Outcome
unfolding transition
propose_payment d st w =
    let w₁ = transition "propose_payment" w in pay d st (intent_of d (key_or d w₁) none st) w₁

unfoldable pub handle_gateway_response : Deps → ShopperState → World → Outcome
unfolding transition
handle_gateway_response d st w = (ok st, transition "handle_gateway_response" w)

unfoldable pub blocked : Deps → ShopperState → World → Outcome
unfolding transition
blocked d st w =
    (ok (record st { status = "blocked" }), add (plain note "no_retry") (transition "blocked" w))

-- `pa_id[3:]` under another prefix, where the answer names an authorization
abbrev pub approval_id : Option GatewayResponse → String
approval_id none = ""
approval_id (some r) =
    let pa_id = get_or r.payment_authorization_id "" in
    if starts_with pa_id "pa_" then "ar_" <> suffix 3 pa_id else ""

unfoldable pub await_approval : Deps → ShopperState → World → Outcome
unfolding transition
await_approval d st w = (
  ok (record st {
    status = "awaiting_approval";
    approval_request_id = some (approval_id st.gateway_response);
  }),
  transition "await_approval" w,
)

unfoldable pub settled : ShopperState → ShopperState
settled st = record st {
  status = if get_or st.decision "ERROR" == "ALLOW" then "completed" else "blocked";
}

unfoldable pub submit_approved_payment : Deps → ShopperState → World → Outcome
unfolding transition settled
submit_approved_payment d st w =
    let w₁ = transition "submit_approved_payment" w in
    and_then (chosen d st, w₁)
      (λ product w₂.
        and_then
          (pay d st
            (intent_of d ("crew-approved-" <> d.uuid (length w₂.submissions))
              (truthy st.approval_token) st)
            w₂)
          (λ st' w₃. (ok (settled st'), w₃)))

unfoldable pub completed : Deps → ShopperState → World → Outcome
unfolding transition
completed d st w = (ok (record st { status = "completed" }), transition "completed" w)
