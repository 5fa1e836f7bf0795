-- ===== src/AgentRun/Resumed.antt =====
-- apps/agent-simulator/agent_simulator/service.py: what an approval does to a run.
use mathlib.Core.Path.{subst}
use agent_pay_sentinel.Prelude.{
  String, ◌≡◌, ◌≢◌, ◌⊎◌, inl, inr, refl, sym, none, some, Option, List, [], ◌∷◌, lookup, insert,
  lookup-insert, ◌==◌, Bool-cases, eq_iff, eq-false_of_ne, ne_of_eq-false, arith,
}
use agent_pay_sentinel.AgentRun.{Deps, World, Raised, simulator_error, add, note, plain}
use agent_pay_sentinel.AgentRun.Graph.{
  Node, Ended, submit_approved_payment, run, continue_with, proceed, successor, perform,
}
use agent_pay_sentinel.AgentRun.Nodes
use agent_pay_sentinel.AgentRun.Nodes.{ShopperState, Outcome, and_then, get_or, settled}
use agent_pay_sentinel.AgentRun.Service.{
  Run, Runs, Failure, raised, Start, Approval, Granted, refused, granted, returned, resumed,
  keep_started, start_run, keep_resumed, resume_with, on_grant, approve_found, approve_and_resume,
}
use agent_pay_sentinel.Result.{Result, ok, err}

-- An outcome that is an error, or a state that is completed or blocked.
abbrev Ends : {X : Type 0} → Result X ShopperState → Type 0
Ends (err e) = Unit
Ends (ok st) = (st.status ≡ "completed") ⊎ (st.status ≡ "blocked")

and_then-Ends :
    {A : Type 0} (o : Result Raised A × World) (next : A → World → Outcome)
    → ((a : A) (w : World) → Ends (next a w).0)
    → Ends (and_then o next).0
unfolding and_then
and_then-Ends (err e, w) next h = tt
and_then-Ends (ok a, w) next h = h a w

settled-Ends : (st : ShopperState) → Ends {X = Raised} (ok (settled st))
unfolding settled
settled-Ends st = elim (Bool-cases (get_or st.decision "ERROR" == "ALLOW")) [
  | inl e ↦ rw e (inl refl)
  | inr e ↦ rw e (inr refl)
]

submit-Ends :
    (d : Deps) (st : ShopperState) (w : World) → Ends (Nodes.submit_approved_payment d st w).0
unfolding Nodes.submit_approved_payment
submit-Ends d st w =
    and_then-Ends _ _ (λ product w₂. and_then-Ends _ _ (λ st' w₃. settled-Ends st'))

last_node :
    (rest : Node → ShopperState → World → Ended × World) (o : Outcome)
    → Ends o.0
    → Ends (returned (continue_with rest submit_approved_payment o).0)
unfolding continue_with proceed successor returned
last_node rest (err e, w) h = tt
last_node rest (ok st, w) h = h

resume-Ends :
    (token : Option String) (r : Run) (w : World) → Ends (returned (resume_with token r w).0)
unfolding resume_with run perform
resume-Ends token r w =
    last_node _ (Nodes.submit_approved_payment r.deps _ w) (submit-Ends r.deps _ w)

-- A run that waits for nobody.
abbrev pub Closed : Option Run → Type 0
Closed none = ⊥
Closed (some r) = r.status ≢ "awaiting_approval"

abbrev Closes : String → Result Failure Run × Runs → Type 0
Closes run_id (err e, runs) = Unit
Closes run_id (ok r, runs) = Closed (lookup run_id runs)

inserted : (run_id : String) (r : Run) (runs : Runs) → lookup run_id (insert run_id r runs) ≡ some r
inserted run_id r runs = ground (arith, lookup-insert run_id run_id r runs, eq_iff run_id run_id)

keep_resumed-Closes :
    (a : Approval) (run_id : String) (r : Run) (runs : Runs)
    (res : Result Failure ShopperState × World)
    → Ends res.0
    → Closes run_id (keep_resumed a run_id r runs res)
unfolding keep_resumed resumed
keep_resumed-Closes a run_id r runs (err e, w) h = tt
keep_resumed-Closes a run_id r runs (ok st, w) h =
    rw (inserted run_id (resumed a r w st) runs) (elim h [
      | inl e ↦ rw e (ne_of_eq-false "completed" "awaiting_approval" refl)
      | inr e ↦ rw e (ne_of_eq-false "blocked" "awaiting_approval" refl)
    ])

on_grant-Closes :
    (a : Approval) (run_id : String) (r : Run) (runs : Runs) (g : Granted)
    → Closes run_id (on_grant a run_id r runs g)
unfolding on_grant
on_grant-Closes a run_id r runs refused = tt
on_grant-Closes a run_id r runs (granted token) =
    keep_resumed-Closes a run_id r runs _
      (resume-Ends token r (add (plain note "approval_granted") r.transcript))

found-Closes :
    (a : Approval) (run_id : String) (o : Option Run) (runs : Runs)
    → Closes run_id (approve_found a run_id o runs)
unfolding approve_found
found-Closes a run_id none runs = tt
found-Closes a run_id (some r) runs = elim (Bool-cases (r.status == "awaiting_approval")) [
  | inr e ↦ rw e tt
  | inl e ↦ elim (Bool-cases (get_or r.state.approval_request_id "" == "")) [
    | inl e' ↦ rw (e, e') tt
    | inr e' ↦
        rw (e, e')
          (on_grant-Closes a run_id r runs (a.grant (get_or r.state.approval_request_id "")))
  ]
]

approved-Closed :
    (a : Approval) (run_id : String) (runs : Runs) (r : Run)
    → (approve_and_resume a run_id runs).0 ≡ ok r
    → Closed (lookup run_id (approve_and_resume a run_id runs).1)
unfolding approve_and_resume
approved-Closed a run_id runs r h =
    closed (approve_found a run_id (lookup run_id runs) runs)
      (found-Closes a run_id (lookup run_id runs) runs) h
  where
    closed :
        (res : Result Failure Run × Runs)
        → Closes run_id res
        → res.0 ≡ ok r
        → Closed (lookup run_id res.1)
    closed (err e, runs') c h = cc
    closed (ok r', runs') c h = c

-- Another run's entry is as it was.
kept_elsewhere :
    (run_id other : String) (r : Run) (runs : Runs)
    → other ≢ run_id
    → Closed (lookup run_id runs)
    → Closed (lookup run_id (insert other r runs))
kept_elsewhere run_id other r runs apart c =
    let same : lookup run_id (insert other r runs) ≡ lookup run_id runs =
      rw (lookup-insert other run_id r runs, eq-false_of_ne other run_id apart) refl in
    subst Closed (sym same) c

Closed-approve :
    (a : Approval) (run_id : String) (o : Option Run) (runs : Runs)
    → o ≡ lookup run_id runs
    → Closed o
    → approve_found a run_id o runs
      ≡ (err (raised (simulator_error "RUN_NOT_AWAITING_APPROVAL")), runs)
unfolding approve_found
Closed-approve a run_id none runs e c = absurd c
Closed-approve a run_id (some r) runs e c = rw (eq-false_of_ne r.status "awaiting_approval" c) refl

module _ (run_id : String) where
  keep_resumed-keeps :
      (a : Approval) (other : String) (r : Run) (runs : Runs)
      (res : Result Failure ShopperState × World)
      → other ≢ run_id
      → Closed (lookup run_id runs)
      → Closed (lookup run_id (keep_resumed a other r runs res).1)
  unfolding keep_resumed
  keep_resumed-keeps a other r runs (err e, w) apart c = kept_elsewhere run_id other _ runs apart c
  keep_resumed-keeps a other r runs (ok st, w) apart c = kept_elsewhere run_id other _ runs apart c

  on_grant-keeps :
      (a : Approval) (other : String) (r : Run) (runs : Runs) (g : Granted)
      → other ≢ run_id
      → Closed (lookup run_id runs)
      → Closed (lookup run_id (on_grant a other r runs g).1)
  unfolding on_grant
  on_grant-keeps a other r runs refused apart c = c
  on_grant-keeps a other r runs (granted token) apart c =
      keep_resumed-keeps a other r runs _ apart c

  found-keeps :
      (a : Approval) (other : String) (o : Option Run) (runs : Runs)
      → other ≢ run_id
      → Closed (lookup run_id runs)
      → Closed (lookup run_id (approve_found a other o runs).1)
  unfolding approve_found
  found-keeps a other none runs apart c = c
  found-keeps a other (some r) runs apart c = elim (Bool-cases (r.status == "awaiting_approval")) [
    | inr e ↦ rw e c
    | inl e ↦ elim (Bool-cases (get_or r.state.approval_request_id "" == "")) [
      | inl e' ↦ rw (e, e') c
      | inr e' ↦
          rw (e, e')
            (on_grant-keeps a other r runs (a.grant (get_or r.state.approval_request_id "")) apart
              c)
    ]
  ]

  approve-keeps :
      (a : Approval) (other : String) (runs : Runs)
      → Closed (lookup run_id runs)
      → Closed (lookup run_id (approve_and_resume a other runs).1)
  unfolding approve_and_resume
  approve-keeps a other runs c = elim (Bool-cases (other == run_id)) [
    | inl e ↦
        let same : other ≡ run_id = (eq_iff other run_id).0 e in
        rw (same, Closed-approve a run_id (lookup run_id runs) runs refl c) c
    | inr e ↦ found-keeps a other (lookup other runs) runs (ne_of_eq-false other run_id e) c
  ]

  start-keeps :
      (s : Start) (runs : Runs)
      → s.run_id ≢ run_id
      → Closed (lookup run_id runs)
      → Closed (lookup run_id (start_run s runs).1)
  unfolding start_run keep_started
  start-keeps s runs apart c = elim (Bool-cases s.seeded) [
    | inr e ↦ rw e c
    | inl e ↦ rw e (stored _ _)
  ]
    where
      stored :
          (o : Result Failure ShopperState) (w : World)
          → Closed (lookup run_id (keep_started s runs (o, w)).1)
      stored (err x) w = c
      stored (ok st) w = kept_elsewhere run_id s.run_id _ runs apart c

-- A call of the service.
pub data Operation : Type 0 where
  starting : Start → Operation
  approving : Approval → String → Operation

abbrev pub serve : List Operation → Runs → Runs
serve [] runs = runs
serve (starting s ∷ ops) runs = serve ops (start_run s runs).1
serve (approving a run_id ∷ ops) runs = serve ops (approve_and_resume a run_id runs).1

-- No later run takes the id.
abbrev pub OthersStart : String → List Operation → Type 0
OthersStart run_id [] = Unit
OthersStart run_id (starting s ∷ ops) = (s.run_id ≢ run_id) × OthersStart run_id ops
OthersStart run_id (approving a other ∷ ops) = OthersStart run_id ops

serve-Closed :
    (run_id : String) (ops : List Operation) (runs : Runs)
    → OthersStart run_id ops
    → Closed (lookup run_id runs)
    → Closed (lookup run_id (serve ops runs))
serve-Closed run_id [] runs o c = c
serve-Closed run_id (starting s ∷ ops) runs (apart, o) c =
    serve-Closed run_id ops (start_run s runs).1 o (start-keeps run_id s runs apart c)
serve-Closed run_id (approving a other ∷ ops) runs o c =
    serve-Closed run_id ops (approve_and_resume a other runs).1 o
      (approve-keeps run_id a other runs c)

-- Calls of the service run one after another. Once an approval has resumed a run, no later approval
-- resumes it: whatever runs are started under other ids and whatever approvals are made in between,
-- it raises RUN_NOT_AWAITING_APPROVAL and leaves every run as it was.
pub resumed_once :
    (a later : Approval) (run_id : String) (runs : Runs) (r : Run) (ops : List Operation)
    → (approve_and_resume a run_id runs).0 ≡ ok r
    → OthersStart run_id ops
    → let now = serve ops (approve_and_resume a run_id runs).1 in
      approve_and_resume later run_id now
      ≡ (err (raised (simulator_error "RUN_NOT_AWAITING_APPROVAL")), now)
unfolding approve_and_resume
resumed_once a later run_id runs r ops h others =
    let now = serve ops (approve_and_resume a run_id runs).1 in
    Closed-approve later run_id (lookup run_id now) now refl (
      serve-Closed run_id ops (approve_and_resume a run_id runs).1 others
        (approved-Closed a run_id runs r h))
