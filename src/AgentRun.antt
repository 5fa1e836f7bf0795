-- ===== src/AgentRun.antt =====
-- The agent of the simulator, apps/agent-simulator/agent_simulator: its storefront (storefront.py), its
-- transcript (transcript.py) and its one tool for payments (sentinel.py). The gateway, the crew of
-- LLM agents, `uuid4`, floats and Python's text methods are arguments. Steps keep what is read again;
-- their summaries, times and actors are left out.
pub mod Nodes
pub mod Graph
pub mod Shape
pub mod Payments
pub mod Offline
pub mod Service
pub mod Resumed
use agent_pay_sentinel.Prelude.{
  ℕ, ◌+◌, String, ◌<>◌, Bool, true, false, not, ◌&&◌, ◌||◌, Option, none, some, List, [], ◌∷◌, Dict,
  lookup, take, length, ltb, leb, ◌==◌, if◌then◌else◌,
}
use Prim.Native.String.{count}
use agent_pay_sentinel.Result.{Result, ok, err}

pub record Product : Type 0 where
  pub sku : String
  pub name : String
  pub unit_price : String
  pub merchant_id : String
  pub merchant_verified : Bool
  pub category : String
  pub page_url : String
  pub source_type : String

pub record CartLine : Type 0 where
  pub sku : String
  pub name : String
  pub quantity : ℕ
  pub unit_price : String

-- What the client reads of the gateway's answer.
pub record GatewayResponse : Type 0 where
  pub decision : Option String
  pub reason_codes : List String
  pub payment_authorization_id : Option String

pub data StepKind : Type 0 where
  graph_transition agent_step tool_call tool_result gateway_decision review error note : StepKind

-- A step of the transcript; `url` and `response` are what its detail holds of them.
pub record Step : Type 0 where
  pub kind : StepKind
  pub name : String
  pub url : Option String
  pub response : Option GatewayResponse

-- The request body and headers of `POST /v1/payment-intents`.
pub record Submission : Type 0 where
  pub idempotency_key : String
  pub agent_id : String
  pub user_id : String
  pub delegation_id : String
  pub merchant_id : String
  pub merchant_verified : Bool
  pub amount : String
  pub currency : String
  pub items : List CartLine
  pub purpose : String
  pub source_type : String
  pub source_url : String
  pub text : String
  pub approval_token : Option String
  pub correlation_id : Option String

-- The transcript and the requests to the gateway, the newest first.
pub record World : Type 0 where
  pub steps : List Step
  pub submissions : List Submission

pub data Raised : Type 0 where
  key_error : (key : String) → Raised
  index_error : Raised
  validation_error : Raised
  simulator_error : (code : String) → Raised

-- `CATALOG` and `PAGES`, with Python's text methods.
pub record Shop : Type 0 where
  pub catalog : Dict Product
  pub poisoned : Product
  pub pages : Dict String
  pub lower : String → String
  pub split : String → List String
  pub within : String → String → Bool

pub data CrewTask : Type 0 where
  research_task cart_and_review_task : CrewTask

-- `GraphDeps`, with the settings that are read.
pub record Deps : Type 0 where
  pub shop : Shop
  pub offline : Bool
  pub adversarial : Bool
  pub idempotency_key : Option String
  pub correlation_id : Option String
  pub agent_id : String
  pub user_id : String
  pub delegation_id : String
  -- `none` where no answer came; it may depend on what was sent before
  pub gateway : List Submission → Submission → Option GatewayResponse
  -- `none` where the crew raised; its agents hold the tools
  pub crew : CrewTask → World → Option String × World
  pub uuid : ℕ → String
  pub str_decimal : String → String
  pub upper : String → String
  pub total : String → ℕ → String

values {ℓ} : {V : Type ℓ} → Dict V → List V
values [] = []
values ((k, v) ∷ d) = v ∷ values d

-- `any(term in text for term in terms if len(term) > 2)`
any_term : (String → String → Bool) → String → List String → Bool
any_term within text [] = false
any_term within text (t ∷ ts) = ltb 2 (count t) && within t text || any_term within text ts

hit : Shop → String → Product → Bool
unfolding any_term
hit shop q p = any_term shop.within (shop.lower (p.name <> " " <> p.category)) (shop.split q)

-- `[p for p in ps if test(p)]`
select : (Product → Bool) → List Product → List Product
select test [] = []
select test (p ∷ ps) = let rest = select test ps in if test p then p ∷ rest else rest

-- `hits or all`
abbrev or_all : List Product → List Product → List Product
or_all [] all = all
or_all (p ∷ ps) all = p ∷ ps

unfoldable pub search_catalog : Shop → String → Bool → List Product
unfolding hit values select
search_catalog shop query adversarial =
    let all = values shop.catalog in
    let hits = or_all (select (hit shop (shop.lower query)) all) all in
    take 4 (
      if adversarial
      then shop.poisoned ∷ select (λ (p : Product). not (p.sku == shop.poisoned.sku)) hits
      else select (λ (p : Product). not (p.source_type == "scraped_page")) hits)

unfoldable pub add : Step → World → World
add s w = record w { steps = s ∷ w.steps }

abbrev pub plain : StepKind → String → Step
plain kind name = record { kind = kind; name = name; url = none; response = none }

unfoldable pub product_search : World → World
unfolding add
product_search w = add (plain tool_call "product_search") w

-- The call and its result are both recorded.
unfoldable pub fetch_merchant_page : String → World → World
unfolding add
fetch_merchant_page url w =
    add
      (record { kind = tool_result; name = "fetch_merchant_page"; url = some url; response = none })
      (add
        (record { kind = tool_call; name = "fetch_merchant_page"; url = some url; response = none })
        w)

-- whether a step with this page stands in the transcript
unfoldable pub already_fetched : String → List Step → Bool
already_fetched url [] = false
already_fetched url (s ∷ ss) =
    s.name == "fetch_merchant_page" && elim s.url [ none ↦ false | some u ↦ u == url ]
    || already_fetched url ss

-- The body of the tool: the attempt is recorded, the request is sent, and its answer is recorded.
unfoldable pub propose_payment_intent : Deps → Submission → World → Result Raised (Unit {0}) × World
unfolding add
propose_payment_intent d s w =
    let w₁ = add (plain tool_call "propose_payment_intent") w in
    let w₂ = record w₁ { submissions = s ∷ w₁.submissions } in
    elim (d.gateway w.submissions s) [
      | none ↦
          (err (simulator_error "GATEWAY_UNREACHABLE"), add (plain error "gateway_unreachable") w₂)
      | some r ↦ (
        ok tt,
        add
            (record {
              kind = gateway_decision;
              name = elim r.decision [ none ↦ "UNKNOWN" | some x ↦ x ];
              url = none;
              response = some r;
            })
            w₂,
      )
    ]

is_decision : StepKind → Bool
is_decision gateway_decision = true
is_decision _ = false

-- the detail of the newest gateway decision
unfoldable pub latest_decision : List Step → Option GatewayResponse
unfolding is_decision
latest_decision [] = none
latest_decision (s ∷ ss) =
    let rest = latest_decision ss in if is_decision s.kind then s.response else rest
