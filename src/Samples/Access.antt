-- ===== src/Samples/Access.antt =====
-- The theorems about identity, limits, locks, duplicates, approvals and the decision point at sample
-- requests.
use Prim.Native.String.{◌++◌, count}
use text.Mathlib.TextLemmas.{length-append}
use agent_pay_sentinel.Prelude.{
  ℕ, zero, suc, ◌≤◌, String, ◌≡◌, refl, ◌≢◌, ◌⊎◌, ap, true, false, none, some, [], ◌∷◌, arith,
  lookup, ne_of_eq-false,
}
use agent_pay_sentinel.Approvals.{create_request, grant, evaluate_token, new_request, from_third}
use agent_pay_sentinel.Approvals.Bound.{approval_bound, bound_to, bound_claims}
use agent_pay_sentinel.Context.{SpendingPolicy, load_context}
use agent_pay_sentinel.Context.Spend.{Bound, Unbound, policy_found_iff}
use agent_pay_sentinel.Duplicates.{
  Lifetimes, no_duplicate, check_duplicate, remember_outcome, replay,
}
use agent_pay_sentinel.Duplicates.Replay.{retry_replays}
use agent_pay_sentinel.Identity.{Decoded, claims, authenticate}
use agent_pay_sentinel.Identity.Guards.{Passed, authenticate-Passed}
use agent_pay_sentinel.Pdp.{Security, IdentityFinding, http_error, evaluate, build_input}
use agent_pay_sentinel.Pdp.FailClosed.{Answered, fails_closed}
use agent_pay_sentinel.RateLimit.{Settings, Request}
use agent_pay_sentinel.RateLimit.Ceiling.{usage, serve, ceiling_kept}
use agent_pay_sentinel.Schemas.{Decision, block}
use agent_pay_sentinel.Store.{set_nx, zcount_window, sismember}
use agent_pay_sentinel.Store.Lock.{
  DistributedLock, idle, trying, holding, attempts, attempt, System, update, enter, try, here, next,
}
use agent_pay_sentinel.Store.Lock.Exclusion.{Shared, lock_exclusive}
use agent_pay_sentinel.Store.Window.{members}
use agent_pay_sentinel.Tokens.{IsSound, approval_claims}
use agent_pay_sentinel.Samples.Risk.{scores}
use agent_pay_sentinel.Samples.{
  strings, jwt, txn, identity, intent, risk, stored, empty_store, amount, tables,
}

abbrev security : Security
security = record {
  injection_confidence = 0;
  injection_labels = [];
  classifier_degraded = false;
  deterministic_confidence = 0;
  source_trust_score = 1000;
}

abbrev identity_finding : IdentityFinding
identity_finding = record { valid = true; user_id = "u"; reason_codes = [] }

abbrev lifetimes : Lifetimes
lifetimes = record { idempotency_ttl_seconds = 86400; fingerprint_window_seconds = 300 }

retry_replays_example :
    (check_duplicate txn 1000 (remember_outcome lifetimes txn stored true 0 empty_store)).0
    ≡ replay stored
retry_replays_example =
    retry_replays lifetimes txn stored 0 txn true 1000 empty_store refl refl (omega arith)

sound : IsSound jwt (bound_claims jwt txn [] "x" 2000000) amount
unfolding bound_claims new_request from_third approval_claims
sound = record {
  approval_lives = λ now h. refl;
  approval_text = ne_of_eq-false "approval" "" refl;
  decimal_text = refl;
}

approval_bound_example :
    let (r, s') = create_request jwt txn [] 1000000 empty_store in
    (token : String) × ((grant jwt r.approval_request_id 2000000 "x" s').0 ≡ some token)
    × (evaluate_token jwt 3000000 (some token) ≡ bound_to txn)
approval_bound_example =
    approval_bound jwt txn [] "x" 1000000 2000000 3000000 empty_store sound (omega arith)
      (omega arith)

abbrev delegation : String → Decoded
delegation token = claims (record {
  sub = "u";
  jti = "j";
  iat = 0;
  exp = 10;
  agent_id = some "a";
  delegation_id = some "d";
  scopes = some ("payments:authorize" ∷ []);
})

authenticate-Passed_example :
    Passed strings delegation true (some "bearer t") intent empty_store identity
unfolding authenticate sismember lookup
authenticate-Passed_example =
    authenticate-Passed strings delegation true (some "bearer t") intent empty_store identity refl

policy_found_iff_example :
    let ctx = load_context txn tables empty_store 0 in
    ((ctx.policy_found ≡ true)
      × (p : SpendingPolicy) × (lookup "d" tables.policies ≡ some p)
      × (p.user_id ≡ "u")
      × Bound ctx p)
    ⊎ ((ctx.policy_found ≡ false)
        × Unbound scores txn ctx
        × ((p : SpendingPolicy) → lookup "d" tables.policies ≡ some p → p.user_id ≢ "u"))
policy_found_iff_example = policy_found_iff scores txn tables empty_store 0

abbrev cfg : Settings
cfg = record { enabled = true; agent_per_min = 2; delegation_per_min = 5 }

abbrev request : Request
request = record {
  agent_id = "a";
  delegation_id = "d";
  now = 5;
  agent_member = "m1";
  delegation_member = "m2";
}

ceiling_kept_example :
    let (now, s') = serve cfg 0 (request ∷ []) empty_store in usage "a" now s' ≤ 2
unfolding members zcount_window lookup
ceiling_kept_example =
    ceiling_kept cfg 0 (request ∷ []) "a" empty_store (omega arith, refl, tt) (omega arith)

fails_closed_example :
    let v =
      evaluate
        (λ s. s)
        (λ input. http_error "ConnectError")
        (build_input txn
          (load_context txn tables empty_store 0)
          security
          risk
          identity_finding
          no_duplicate
          (evaluate_token jwt 0 none)
          false
          true) in
    (v.decision ≢ block
      → Answered (http_error "ConnectError") v.decision × (v.pdp_available ≡ true))
    × (((d : Decision) → ¬ Answered (http_error "ConnectError") d)
        → (v.decision ≡ block)
          × (v.pdp_available ≡ false)
          × (v.deny_reasons ≡ "PDP_UNAVAILABLE_FAIL_CLOSED" ∷ []))
fails_closed_example =
    fails_closed (λ s. s) (λ input. http_error "ConnectError")
      (build_input txn (load_context txn tables empty_store 0) security risk identity_finding
        no_duplicate (evaluate_token jwt 0 none) false true)

-- The token of client `n` is `n` strokes.
strokes : ℕ → String
strokes zero = ""
strokes (suc n) = "x" ++ strokes n

count-strokes : (n : ℕ) → count (strokes n) ≡ n
unfolding strokes
count-strokes zero = refl
count-strokes (suc n) = rw (length-append "x" (strokes n), count-strokes n) (omega arith)

strokes-inj : (m n : ℕ) → strokes m ≡ strokes n → m ≡ n
strokes-inj m n h = omega (arith, count-strokes m, count-strokes n, ap count h)

abbrev lock : ℕ → DistributedLock
lock i = record { key = "agentpay:lock:k"; token = strokes i; ttl = 10 }

shared : Shared lock "agentpay:lock:k" 10
shared = record {
  one_key = λ i. refl;
  one_ttl = λ i. refl;
  fresh = strokes-inj;
  positive = omega arith;
}

idle_is_free : (w : ℕ) → idle ≢ holding w
idle_is_free w e = cc

abbrev quiet : System
quiet = record { now = 5; store = record { kv = []; sets = []; zsets = [] }; client = λ i. idle }

abbrev entered : System
entered = record quiet { client = update quiet.client 0 (trying attempts) }

abbrev held : System
held =
    let (c, st) = attempt (lock 0) 5 attempts entered.store in
    record entered { store = st; client = update entered.client 0 c }

lock_exclusive_example : zero ≡ zero
unfolding attempt set_nx lookup
lock_exclusive_example =
    lock_exclusive lock "agentpay:lock:k" 10 shared quiet held 0 0 5 5 (λ k w. idle_is_free w)
      (next (next here (enter 0 refl refl)) (try 0 attempts refl refl)) refl refl (omega arith)
      (omega arith)
