-- ===== src/AgentRun/Shape.antt =====
-- apps/agent-simulator/agent_simulator/graph.py: what the edges allow, and how a run ends.
use mathlib.Core.Path.{subst}
use agent_pay_sentinel.Prelude.{
  ℕ, ap, ◌≤◌, ◌<◌, ◌≡◌, ◌≢◌, refl, ◌⊎◌, inl, inr, false, none, some, arith, eq_iff, ne_of_eq-false,
  ◌==◌, Bool-cases, Option-cases, String, List, ◌∷◌, ◌∙◌,
}
use agent_pay_sentinel.AgentRun.{
  Deps, World, Submission, GatewayResponse, Raised, simulator_error, propose_payment_intent,
  latest_decision, add,
}
use agent_pay_sentinel.AgentRun.Nodes
use agent_pay_sentinel.AgentRun.Nodes.{ShopperState, Outcome, get_or, pay}
use agent_pay_sentinel.AgentRun.Graph.{
  Node, search, build_cart, propose_payment, handle_gateway_response, blocked, await_approval,
  submit_approved_payment, completed, successor, perform, Ended, finished, interrupted, failed,
  out_of_fuel, proceed, continue_with, run, invoke, interrupt_before,
}
use agent_pay_sentinel.Result.{Result, ok, err}

-- The gateway's answer to the newest request, which decides so.
pub record Answered (d : Deps) (w : World) (decision : String) : Type 0 where
  pub request : Submission
  pub earlier : List Submission
  pub sent : w.submissions ≡ request ∷ earlier
  pub response : GatewayResponse
  pub answer : d.gateway earlier request ≡ some response
  pub decides : get_or response.decision "ERROR" ≡ decision

-- How a run may end: completed where the gateway answered ALLOW, waiting for a human where it answered
-- REQUIRE_APPROVAL, blocked on any other answer, or by an exception of a node.
abbrev pub Settles : Deps → Ended × World → Type 0
Settles d (finished st, w) =
    ((st.status ≡ "completed") × Answered d w "ALLOW")
    ⊎ ((st.status ≡ "blocked")
        × (decision : String) × Answered d w decision
        × (decision ≢ "ALLOW")
        × (decision ≢ "REQUIRE_APPROVAL"))
Settles d (interrupted st, w) = (st.status ≡ "awaiting_approval") × Answered d w "REQUIRE_APPROVAL"
Settles d (failed e, w) = Unit
Settles d (out_of_fuel, w) = ⊥

module _ (d : Deps) where
  -- A node that raises ends the run; one that does not hands on to the next.
  continue_settles :
      (rest : Node → ShopperState → World → Ended × World) (n m : Node) (o : Outcome)
      → ((st : ShopperState) → successor n st ≡ some m)
      → interrupt_before m ≡ false
      → ((st : ShopperState) (w : World) → Settles d (rest m st w))
      → Settles d (continue_with rest n o)
  unfolding continue_with
  continue_settles rest n m (err e, w) edge free h = tt
  continue_settles rest n m (ok st, w) edge free h = rw (edge st, free) (h st w)

  -- the state's decision is the gateway's
  Decided : Outcome → Type 0
  Decided (err e, w) = Unit
  Decided (ok st, w) = Answered d w (get_or st.decision "ERROR")

  unanswered :
      (s : Submission) (w : World)
      → d.gateway w.submissions s ≡ none
      → (e : Raised) × (w' : World) × (propose_payment_intent d s w ≡ (err e, w'))
  unfolding propose_payment_intent
  unanswered s w e = (
    simulator_error "GATEWAY_UNREACHABLE",
    (propose_payment_intent d s w).1,
    rw (e, propose_payment_intent) refl,
  )

  answered :
      (s : Submission) (w : World) (r : GatewayResponse)
      → d.gateway w.submissions s ≡ some r
      → (w' : World) × (propose_payment_intent d s w ≡ (ok tt, w'))
        × (w'.submissions ≡ s ∷ w.submissions)
        × (latest_decision w'.steps ≡ some r)
  unfolding propose_payment_intent latest_decision add
  answered s w r e = (
    (propose_payment_intent d s w).1,
    rw (e, propose_payment_intent) refl,
    rw (e, propose_payment_intent) refl,
    rw (e, propose_payment_intent, latest_decision) refl,
  )

  pay-Decided :
      (st : ShopperState) (o : Result Raised Submission) (w : World) → Decided (pay d st o w)
  unfolding Decided pay
  pay-Decided st (err e) w = tt
  pay-Decided st (ok s) w = elim (Option-cases (d.gateway w.submissions s)) [
    | inl e ↦ let (x, w', same) = unanswered s w e in rw same tt
    | inr (r, e) ↦
        let (w', same, sent, latest) = answered s w r e in
        rw (same, latest)
          (record {
            request = s;
            earlier = w.submissions;
            sent = sent;
            response = r;
            answer = e;
            decides = refl;
          })
  ]

  decided :
      (st : ShopperState) (w : World)
      → Answered d w (get_or st.decision "ERROR")
      → Settles d (run 2 d handle_gateway_response st w)
  unfolding run perform continue_with proceed successor Nodes.handle_gateway_response Nodes.blocked
      Nodes.await_approval Nodes.completed add
  decided st w a =
      let decision = get_or st.decision "ERROR" in
      let answers : (x : String) → decision ≡ x → Answered d w x = λ x e. record {
        request = a.request;
        earlier = a.earlier;
        sent = a.sent;
        response = a.response;
        answer = a.answer;
        decides = a.decides ∙ e;
      } in
      elim (Bool-cases (decision == "ALLOW")) [
        | inl e ↦
            rw e (
              inl
                (refl, carried w _ "ALLOW" refl (answers "ALLOW" ((eq_iff decision "ALLOW").0 e))))
        | inr no_allow ↦ elim (Bool-cases (decision == "REQUIRE_APPROVAL")) [
          | inl e ↦
              rw (no_allow, e)
                (
                  refl,
                  carried w _ "REQUIRE_APPROVAL" refl
                      (answers "REQUIRE_APPROVAL" ((eq_iff decision "REQUIRE_APPROVAL").0 e)),
                )
          | inr other ↦
              rw (no_allow, other)
                (inr (
                  refl,
                  decision,
                  carried w _ decision refl a,
                  ne_of_eq-false decision "ALLOW" no_allow,
                  ne_of_eq-false decision "REQUIRE_APPROVAL" other,
                ))
        ]
      ]
    where
      carried :
          (w w' : World) (x : String)
          → w'.submissions ≡ w.submissions
          → Answered d w x
          → Answered d w' x
      carried w w' x same b = record {
        request = b.request;
        earlier = b.earlier;
        sent = same ∙ b.sent;
        response = b.response;
        answer = b.answer;
        decides = b.decides;
      }

  sent_settles : (o : Outcome) → Decided o → Settles d (continue_with (run 2 d) propose_payment o)
  unfolding Decided continue_with proceed successor
  sent_settles (err e, w) h = tt
  sent_settles (ok st, w) h = decided st w h

  paid : (st : ShopperState) (w : World) → Settles d (run 3 d propose_payment st w)
  unfolding run perform Nodes.propose_payment
  paid st w = sent_settles (pay d st _ _) (pay-Decided st _ _)

  -- Every run of the graph ends, within five nodes, and it ends by the gateway's answer to its newest
  -- request: it is completed exactly where that is ALLOW, it waits for a human exactly where it is
  -- REQUIRE_APPROVAL, it is blocked on every other answer, and otherwise a node raised.
  pub invoke-Settles : (st : ShopperState) (w : World) → Settles d (invoke d st w)
  unfolding invoke run successor
  invoke-Settles st w =
      continue_settles (run 4 d) search build_cart (perform search d st w) (λ s. refl) refl
        (λ st₁ w₁.
          continue_settles (run 3 d) build_cart propose_payment (perform build_cart d st₁ w₁)
            (λ s. refl) refl paid)

-- Along the edges from one node to another: whatever the state at each node, and through the
-- interrupt too, whoever resumes.
pub data Reaches (n : Node) : Node → Type 0 where
  here : Reaches n n
  edge : {m k : Node} (st : ShopperState) → Reaches n m → successor m st ≡ some k → Reaches n k

rank : Node → ℕ
rank search = 7
rank build_cart = 6
rank propose_payment = 5
rank handle_gateway_response = 4
rank await_approval = 2
rank submit_approved_payment = 1
rank blocked = 0
rank completed = 0

edge-rank : (n m : Node) (st : ShopperState) → successor n st ≡ some m → rank m < rank n
unfolding rank successor
edge-rank search m st h = ground arith
edge-rank build_cart m st h = ground arith
edge-rank propose_payment m st h = ground arith
edge-rank handle_gateway_response m st h = ground arith
edge-rank blocked m st h = cc
edge-rank await_approval m st h = ground arith
edge-rank submit_approved_payment m st h = cc
edge-rank completed m st h = cc

Reaches-rank : (n : Node) {k : Node} → Reaches n k → rank k ≤ rank n
Reaches-rank n here = omega arith
Reaches-rank n (edge {m} {k} st r h) = omega (arith, Reaches-rank n r, edge-rank m k st h)

pub blocked-Reaches : {k : Node} → Reaches blocked k → k ≡ blocked
unfolding successor
blocked-Reaches here = refl
blocked-Reaches (edge {m} {k} st r h) =
    let same = blocked-Reaches r in
    let h' : successor blocked st ≡ some k = subst (λ n. successor n st ≡ some k) same h in cc

-- The shape of the graph: once a node is left, no edges lead back to it, whatever the state and
-- whoever resumes. Neither payment node runs twice, and a blocked run pays nothing more.
pub no_way_back : (n m k : Node) (st : ShopperState) → successor n st ≡ some m → Reaches m k → k ≢ n
no_way_back n m k st h r same = omega (arith, edge-rank n m st h, Reaches-rank m r, ap rank same)
