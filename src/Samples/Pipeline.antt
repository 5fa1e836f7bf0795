-- ===== src/Samples/Pipeline.antt =====
-- The theorems about the pipeline at a sample transaction that is allowed and confirmed, and with a
-- decision point that cannot be reached.
use agent_pay_sentinel.Prelude.{◌≡◌, refl, ◌≢◌, true, false, none, some, [], arith, insert, lookup}
use agent_pay_sentinel.Audit.{record_event}
use agent_pay_sentinel.Canonical.{Hashing}
use agent_pay_sentinel.Duplicates.{brand_new}
use agent_pay_sentinel.Identity.{invalid_token}
use agent_pay_sentinel.Json.{end}
use agent_pay_sentinel.Lifecycle.{assert_transition}
use agent_pay_sentinel.Payments.{Charge, Fault, authorize, persist_transaction}
use agent_pay_sentinel.Payments.Submission.{Reply, response, submit}
use agent_pay_sentinel.Pdp.{PolicyInput, OpaReply, http_error, result, evaluate, parse_decision}
use agent_pay_sentinel.Pipeline.{State, Deps, Call, then_do}
use agent_pay_sentinel.Pipeline.Running.{decide, replayed_response, run_pipeline}
use agent_pay_sentinel.Pipeline.Guards.{only_allow_posts}
use agent_pay_sentinel.Pipeline.Retry.{retry_gets_the_answer}
use agent_pay_sentinel.Pipeline.Route.{Limits, Request}
use agent_pay_sentinel.RateLimit.{no_faults}
use agent_pay_sentinel.Result.{Result, ok, err}
use agent_pay_sentinel.Samples.{
  services, txn, risk, identity, intent, empty_store, empty_world, stored,
}
use agent_pay_sentinel.Schemas.{allow, require_approval, block, DecisionResponse}

abbrev hashing : Hashing
hashing = record {
  sha256 = λ s. "h";
  dumps_compact = λ x. "{}";
  dumps = λ x. "{}";
  str_decimal = λ x. "42.50";
  str_int = λ n. "0";
}

abbrev allows : PolicyInput → OpaReply
allows input = result (record {
  decision = some "ALLOW";
  reason_codes = none;
  policy_version = some "v1";
  weighted_score = none;
  deny_reasons = none;
  approval_reasons = none;
})

abbrev unreachable : PolicyInput → OpaReply
unreachable input = http_error "ConnectError"

abbrev with_opa : (PolicyInput → OpaReply) → Deps
with_opa opa = record {
  services = services;
  hashing = hashing;
  policies = [];
  merchants = [];
  agents = [];
  analyze = λ t. record {
    security = record {
      injection_confidence = 0;
      injection_labels = [];
      classifier_degraded = false;
      deterministic_confidence = 0;
      source_trust_score = 1000;
    };
    dict = end;
  };
  assess = λ t c a. risk;
  opa = opa;
  cut_detail = λ s. s;
  dump_risk = λ r. end;
  dump_context = λ c. end;
  allow_degraded_classifier = false;
  degraded_classifier_requires_review = true;
  lifetimes = record { idempotency_ttl_seconds = 86400; fingerprint_window_seconds = 300 };
  policy_version = "v1";
}

abbrev confirms : Charge → Reply
confirms c =
    response 200 ""
      (some (record { status = some "confirmed"; provider_reference = some "ch_1"; detail = none }))

abbrev call : Call
call = record {
  now = 0;
  velocity_member = "m";
  token_id = "1";
  execute = true;
  provider = confirms;
}

abbrev state : State
state = record { store = empty_store; pay = empty_world }

abbrev request : Request
request = record {
  intent = intent;
  authorization = some "bearer t";
  decode = λ t. invalid_token "bad signature";
  revocations_readable = true;
  faults = no_faults;
  agent_member = "m1";
  delegation_member = "m2";
  blocked_id = "pa_0";
  payment_authorization_id = "pa_1";
  locked = true;
  call = call;
}

abbrev limits : Limits
limits = record {
  rate = record { enabled = true; agent_per_min = 2; delegation_per_min = 5 };
  fingerprint_window_seconds = 300;
}

abbrev answered : Result Fault DecisionResponse → DecisionResponse
answered (ok r) = r
answered (err e) = stored

block_is_not_allow : block ≢ allow
block_is_not_allow h = cc

allow_is_no_review : allow ≢ require_approval
allow_is_no_review h = cc

only_allow_posts_example :
    (run_pipeline (with_opa unreachable) txn identity call state).1.pay.posts ≡ []
unfolding evaluate
only_allow_posts_example =
    only_allow_posts (with_opa unreachable) txn identity call state block_is_not_allow

retry_gets_the_answer_example :
    let first = decide (with_opa allows) txn identity call brand_new state in
    let m = run_pipeline (with_opa allows) txn identity (record call { now = 1000 }) first.1 in
    (m.0 ≡ ok (replayed_response (with_opa allows) (answered first.0)))
    × (m.1.pay.rows ≡ first.1.pay.rows)
    × (m.1.pay.posts ≡ first.1.pay.posts)
unfolding evaluate parse_decision decide then_do persist_transaction lookup authorize insert
    assert_transition record_event submit
retry_gets_the_answer_example =
    let first = decide (with_opa allows) txn identity call brand_new state in
    retry_gets_the_answer (with_opa allows) txn txn identity identity call
      (record call { now = 1000 }) brand_new state (answered first.0) refl allow_is_no_review refl
      refl refl refl (omega arith)
