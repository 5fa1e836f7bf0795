-- ===== src/AgentRun/Offline.antt =====
-- apps/agent-simulator/agent_simulator/graph.py without a crew: the requests of a run and of its
-- resumption.
use mathlib.Core.Path.{subst}
use agent_pay_sentinel.Prelude.{
  String, ◌<>◌, length, ◌≡◌, refl, ap, sym, ◌∙◌, ◌⊎◌, inl, inr, true, false, Option, none, some,
  ◌∷◌, arith, ◌==◌, Bool-cases,
}
use agent_pay_sentinel.AgentRun.{Deps, Product, Raised, World, Submission, add}
use agent_pay_sentinel.AgentRun.Nodes
use agent_pay_sentinel.AgentRun.Nodes.{
  ShopperState, Outcome, get_or, truthy, intent_of, pay, and_then, chosen,
}
use agent_pay_sentinel.AgentRun.Graph.{
  Node, search, build_cart, propose_payment, handle_gateway_response, successor, perform, Ended,
  finished, interrupted, failed, out_of_fuel, proceed, continue_with, run, invoke, resume,
  interrupt_before, submit_approved_payment,
}
use agent_pay_sentinel.AgentRun.Payments.{
  Quiet, search-Quiet, build_cart-Quiet, rekeyed, intent_rekeyed, pay_sends,
}
use agent_pay_sentinel.Result.{Result, ok, err}

-- One request was sent, without an approval token; a state that waits for a human still stands for
-- it. A run that raised may have sent none.
abbrev pub PaidOnce : Deps → World → Ended × World → Type 0
PaidOnce d w (finished st, w') = (s : Submission) × (w'.submissions ≡ s ∷ w.submissions)
PaidOnce d w (interrupted st, w') =
    (s : Submission) × (w'.submissions ≡ s ∷ w.submissions)
    × (intent_of d s.idempotency_key none st ≡ ok s)
PaidOnce d w (failed e, w') =
    (w'.submissions ≡ w.submissions) ⊎ ((s : Submission) × (w'.submissions ≡ s ∷ w.submissions))
PaidOnce d w (out_of_fuel, w') = ⊥

module _ (d : Deps) where
  -- a request carries the key and the token that it was made with
  keyed_intent :
      (key : String) (token : Option String) (st : ShopperState) (s : Submission)
      → intent_of d key token st ≡ ok s
      → (s.idempotency_key ≡ key) × (s.approval_token ≡ token)
  unfolding intent_of
  keyed_intent key token st s h = (ground arith, ground arith)

  decided :
      (w₀ : World) (s : Submission) (st : ShopperState) (w : World)
      → w.submissions ≡ s ∷ w₀.submissions
      → intent_of d s.idempotency_key none st ≡ ok s
      → PaidOnce d w₀ (run 2 d handle_gateway_response st w)
  unfolding run perform continue_with proceed successor intent_of Nodes.handle_gateway_response
      Nodes.blocked Nodes.await_approval Nodes.completed add
  decided w₀ s st w sent stands =
      let decision = get_or st.decision "ERROR" in
      elim (Bool-cases (decision == "ALLOW")) [
        | inl e ↦ rw e (s, sent)
        | inr no_allow ↦ elim (Bool-cases (decision == "REQUIRE_APPROVAL")) [
          | inl e ↦ rw (no_allow, e) (s, sent, stands)
          | inr other ↦ rw (no_allow, other) (s, sent)
        ]
      ]

  -- the decision leaves what the request was made from
  stands_after :
      (key : String) (token : Option String) (st st' : ShopperState) (s : Submission) (w : World)
      → (pay d st (ok s) w).0 ≡ ok st'
      → intent_of d key token st' ≡ intent_of d key token st
  unfolding pay intent_of
  stands_after key token st st' s w h = ground (arith, h)

  after_sent :
      (w₀ : World) (s : Submission) (r : Outcome)
      → r.1.submissions ≡ s ∷ w₀.submissions
      → ((st : ShopperState) → r.0 ≡ ok st → intent_of d s.idempotency_key none st ≡ ok s)
      → PaidOnce d w₀ (continue_with (run 2 d) propose_payment r)
  unfolding continue_with proceed successor
  after_sent w₀ s (err e, w) sent stands = inr (s, sent)
  after_sent w₀ s (ok st, w) sent stands = decided w₀ s st w sent (stands st refl)

  after_pay :
      (w₀ : World) (key : String) (st : ShopperState) (w : World) (o : Result Raised Submission)
      → intent_of d key none st ≡ o
      → w.submissions ≡ w₀.submissions
      → PaidOnce d w₀ (continue_with (run 2 d) propose_payment (pay d st o w))
  unfolding continue_with pay
  after_pay w₀ key st w (err e) made quiet = inl quiet
  after_pay w₀ key st w (ok s) made quiet =
      after_sent w₀ s (pay d st (ok s) w) (pay_sends d st s w ∙ ap (λ l. s ∷ l) quiet) (λ st' h.
        stands_after s.idempotency_key none st st' s w h
        ∙ subst (λ k. intent_of d k none st ≡ ok s) (sym ((keyed_intent key none st s made).0))
            made)

  proposed :
      (w₀ : World) (st : ShopperState) (w : World)
      → w.submissions ≡ w₀.submissions
      → PaidOnce d w₀ (run 3 d propose_payment st w)
  unfolding run perform Nodes.propose_payment add
  proposed w₀ st w quiet = after_pay w₀ _ st _ _ refl quiet

  continue_quiet :
      (rest : Node → ShopperState → World → Ended × World) (w₀ : World) (n m : Node) (o : Outcome)
      → ((st : ShopperState) → successor n st ≡ some m)
      → interrupt_before m ≡ false
      → Quiet w₀ o
      → ((st : ShopperState) (w : World)
          → w.submissions ≡ w₀.submissions
          → PaidOnce d w₀ (rest m st w))
      → PaidOnce d w₀ (continue_with rest n o)
  unfolding continue_with proceed
  continue_quiet rest w₀ n m (err e, w) edge free quiet h = inl quiet
  continue_quiet rest w₀ n m (ok st, w) edge free quiet h = rw (edge st, free) (h st w quiet)

  -- Without a crew, a run of the graph that ends or waits has sent exactly one request to the
  -- gateway, and a run in which a node raised at most one.
  pub invoke-PaidOnce :
      (st : ShopperState) (w : World) → d.offline ≡ true → PaidOnce d w (invoke d st w)
  unfolding invoke run perform successor
  invoke-PaidOnce st w offline =
      continue_quiet (run 4 d) w search build_cart (Nodes.search d st w) (λ s. refl) refl
        (search-Quiet d offline st w)
        (λ st₁ w₁ q₁.
          continue_quiet (run 3 d) w build_cart propose_payment (Nodes.build_cart d st₁ w₁)
            (λ s. refl) refl (build_cart-Quiet d offline st₁ w₁ ∙ q₁)
            (λ st₂ w₂ q₂. proposed w st₂ w₂ q₂))

  and_then-last :
      {A : Type 0} (call : Result Raised A × World) (f : A → ShopperState)
      → (and_then call (λ a w. (ok (f a), w))).1 ≡ call.1
  unfolding and_then
  and_then-last (err e, w) f = refl
  and_then-last (ok a, w) f = refl

  last_node :
      (rest : Node → ShopperState → World → Ended × World) (o : Outcome)
      → (continue_with rest submit_approved_payment o).1 ≡ o.1
  unfolding continue_with proceed successor
  last_node rest (err e, w) = refl
  last_node rest (ok st, w) = refl

  -- a node that looks its product up first
  with_product :
      (c : Result Raised Product) (w : World) (next : Product → World → Outcome)
      → ((and_then (c, w) next).1 ≡ w) ⊎ ((p : Product) × ((and_then (c, w) next).1 ≡ (next p w).1))
  unfolding and_then
  with_product (err e) w next = inl refl
  with_product (ok p) w next = inr (p, refl)

  approved_node :
      (st : ShopperState) (w : World) (s : Submission)
      → intent_of d
          ("crew-approved-" <> d.uuid (length w.submissions))
          (truthy st.approval_token)
          st
        ≡ ok s
      → let w' = (Nodes.submit_approved_payment d st w).1 in
        (w'.submissions ≡ w.submissions) ⊎ (w'.submissions ≡ s ∷ w.submissions)
  unfolding Nodes.submit_approved_payment add
  approved_node st w s made = elim (with_product (chosen d st) _ _) [
    | inl e ↦ inl (ap (λ (x : World). x.submissions) e)
    | inr (p, e) ↦ inr (
        ap (λ (x : World). x.submissions)
          (e
            ∙ and_then-last
                (pay d st
                  (intent_of d ("crew-approved-" <> d.uuid (length w.submissions))
                    (truthy st.approval_token) st)
                  _)
                _)
        ∙ rw made (pay_sends d st s _))
  ]

  resumed :
      (token : String) (st : ShopperState) (w : World) (s : Submission)
      → intent_of d s.idempotency_key none st ≡ ok s
      → let w' = (resume d token st w).1 in
        (w'.submissions ≡ w.submissions)
        ⊎ (w'.submissions
            ≡ rekeyed ("crew-approved-" <> d.uuid (length w.submissions)) (truthy (some token)) s
              ∷ w.submissions)
  unfolding resume run perform intent_of
  resumed token st w s made =
      let st' = record st { approval_token = some token } in
      let key = "crew-approved-" <> d.uuid (length w.submissions) in
      rw (last_node (run 4 d) (Nodes.submit_approved_payment d st' w)) (
        approved_node st' w (rekeyed key (truthy (some token)) s)
          (intent_rekeyed d s.idempotency_key key none (truthy (some token)) st s made))

  -- Without a crew, a run that waits for a human and is then resumed with a token pays for what was
  -- proposed: one request was sent before the pause, and the resumption sends none or that same
  -- request again, with the token and a key of its own and nothing else changed.
  pub approved_same_payment :
      (st st' : ShopperState) (w : World) (token : String)
      → d.offline ≡ true
      → (invoke d st w).0 ≡ interrupted st'
      → let w₁ = (invoke d st w).1 in
        let w₂ = (resume d token st' w₁).1 in
        (s : Submission) × (w₁.submissions ≡ s ∷ w.submissions)
        × ((w₂.submissions ≡ w₁.submissions)
            ⊎ (w₂.submissions
                ≡ rekeyed
                    ("crew-approved-" <> d.uuid (length w₁.submissions))
                    (truthy (some token))
                    s
                  ∷ w₁.submissions))
  approved_same_payment st st' w token offline paused =
      let (s, sent, made) =
        waiting (invoke d st w).0 (invoke d st w).1 (invoke-PaidOnce st w offline) paused in
      (s, sent, resumed token st' (invoke d st w).1 s made)
    where
      waiting :
          (e : Ended) (w' : World)
          → PaidOnce d w (e, w')
          → e ≡ interrupted st'
          → PaidOnce d w (interrupted st', w')
      waiting e w' h same = subst (λ x. PaidOnce d w (x, w')) same h
