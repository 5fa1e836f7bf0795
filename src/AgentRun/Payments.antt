-- ===== src/AgentRun/Payments.antt =====
-- apps/agent-simulator/agent_simulator/graph.py: what a node sends to the gateway.
use agent_pay_sentinel.Prelude.{
  String, ◌≡◌, refl, ◌∙◌, Bool, true, false, Option, List, [], ◌∷◌, arith, if◌then◌else◌,
}
use agent_pay_sentinel.AgentRun.{
  Deps, Product, Raised, World, Submission, propose_payment_intent, add, fetch_merchant_page,
  product_search, CrewTask, research_task, cart_and_review_task,
}
use agent_pay_sentinel.AgentRun.Nodes.{
  ShopperState, Outcome, and_then, narrated, select_product, search, chosen, carted, build_cart,
  intent_of, pay,
}
use agent_pay_sentinel.Result.{Result, ok, err}

-- Nothing was sent.
abbrev pub Quiet {ℓ} : {A : Type ℓ} → World → A × World → Type 0
Quiet w (a, w') = w'.submissions ≡ w.submissions

and_then-Quiet :
    {A : Type 0} (w : World) (call : Result Raised A × World) (next : A → World → Outcome)
    → Quiet w call
    → ((a : A) (w' : World) → w'.submissions ≡ w.submissions → Quiet w (next a w'))
    → Quiet w (and_then call next)
unfolding and_then
and_then-Quiet w (err e, w') next h hs = h
and_then-Quiet w (ok a, w') next h hs = hs a w' h

select_product-Quiet :
    (d : Deps) (ps : List Product) (st : ShopperState) (w : World)
    → Quiet w (select_product d ps st w)
unfolding select_product fetch_merchant_page add
select_product-Quiet d [] st w = refl
select_product-Quiet d (p ∷ ps) st w = ground arith

module _ (d : Deps) (offline : d.offline ≡ true) where
  narrated-Quiet : (task : CrewTask) (stub : String) (w : World) → Quiet w (narrated d task stub w)
  unfolding narrated
  narrated-Quiet task stub w = ground (arith, offline)

  pub search-Quiet : (st : ShopperState) (w : World) → Quiet w (search d st w)
  unfolding search add product_search
  search-Quiet st w =
      and_then-Quiet w _ _ (narrated-Quiet research_task "" _)
        (λ text w₁ h. select_product-Quiet d _ st _ ∙ at_tools (d.offline) w₁ ∙ h)
    where
      at_tools :
          (b : Bool) (w₁ : World)
          → (if b then product_search w₁ else w₁).submissions ≡ w₁.submissions
      at_tools true w₁ = refl
      at_tools false w₁ = refl

  pub build_cart-Quiet : (st : ShopperState) (w : World) → Quiet w (build_cart d st w)
  unfolding build_cart add carted
  build_cart-Quiet st w =
      and_then-Quiet w (chosen d st, _) _ refl
        (λ product w₁ h.
          and_then-Quiet w _ _ (narrated-Quiet cart_and_review_task "APPROVE" w₁ ∙ h)
            (λ verdict w₂ q. q))

-- the request, under another key and with another token
abbrev pub rekeyed : String → Option String → Submission → Submission
rekeyed key token s = record s { idempotency_key = key; approval_token = token }

-- The key and the token are all that distinguishes two requests from one state.
pub intent_rekeyed :
    (d : Deps) (key key' : String) (token token' : Option String) (st : ShopperState)
    (s : Submission)
    → intent_of d key token st ≡ ok s
    → intent_of d key' token' st ≡ ok (rekeyed key' token' s)
unfolding intent_of
intent_rekeyed d key key' token token' st s h = ground arith

pub pay_sends :
    (d : Deps) (st : ShopperState) (s : Submission) (w : World)
    → (pay d st (ok s) w).1.submissions ≡ s ∷ w.submissions
unfolding pay propose_payment_intent add
pay_sends d st s w = ground arith
