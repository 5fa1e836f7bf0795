-- ===== src/Payments/Submission.antt =====
-- The submission of an authorized payment to the provider, `submit` of gateway/payments.py.
use agent_pay_sentinel.Prelude.{
  ℕ, suc, String, ◌==◌, ltb, Bool, true, false, Option, none, some, ◌∷◌, lookup, if◌then◌else◌,
}
use agent_pay_sentinel.Canonical.{CanonicalTransaction}
use agent_pay_sentinel.Lifecycle.{PaymentState, submitted, confirmed, failed, timeout, unknown}
use agent_pay_sentinel.Result.{Result, ok, err}
use agent_pay_sentinel.Payments.{
  Row, Charge, World, Fault, key_error, bad_json, Run, and_then, put, Services, set_state,
}
use agent_pay_sentinel.Tokens.{IssuedToken}

-- The JSON object of the provider's answer; a field that is missing, null or empty is `none`.
pub record Payload : Type 0 where
  pub status : Option String
  pub provider_reference : Option String
  pub detail : Option String

-- What comes of an HTTP call: no answer with the text of the exception, or the status code with the
-- body's text and the object it holds, if it is JSON.
pub data Reply : Type 0 where
  no_answer : String → Reply
  response : ℕ → String → Option Payload → Reply

pub record ProviderOutcome : Type 0 where
  pub state : PaymentState
  pub provider_reference : Option String
  pub detail : String

abbrev pub or_option : Option String → Option String → Option String
or_option none y = y
or_option (some x) y = some x

abbrev pub text_or : Option String → String → String
text_or none d = d
text_or (some x) d = x

abbrev pub says : String → Option String → Bool
says s none = false
says s (some t) = t == s

module _ (env : Services) where
  abbrev pub settled :
      CanonicalTransaction
      → PaymentState
      → Option String
      → Option String
      → ProviderOutcome
      → Run ProviderOutcome
  settled txn target reference detail outcome w =
      and_then (set_state env txn.payment_authorization_id target reference detail true w)
        (λ _ v. (ok outcome, v))

  abbrev pub refused : CanonicalTransaction → String → Run ProviderOutcome
  refused txn detail =
      settled txn failed none (some detail)
        (record { state = failed; provider_reference = none; detail = detail })

  -- The answer below 400 decides by its `status`.
  unfoldable pub on_payload : CanonicalTransaction → Option Payload → Run ProviderOutcome
  on_payload txn none w = (err bad_json, w)
  on_payload txn (some p) w =
      if says "confirmed" p.status
      then settled txn confirmed p.provider_reference none
          (record { state = confirmed; provider_reference = p.provider_reference; detail = "" }) w
      else refused txn (env.cut (text_or (or_option p.detail p.status) "declined")) w

  unfoldable pub on_reply : CanonicalTransaction → Reply → Run ProviderOutcome
  unfolding on_payload
  on_reply txn (no_answer exc) w =
      and_then (set_state env txn.payment_authorization_id timeout none (some (env.cut exc)) true w)
        (λ _.
          settled txn unknown none (some "awaiting reconciliation; not treated as success")
            (record {
              state = unknown;
              provider_reference = none;
              detail = "provider timeout; reconciling";
            }))
  on_reply txn (response code body payload) w =
      if ltb code 400 then on_payload txn payload w else refused txn (env.cut body) w

  abbrev pub charge_of : CanonicalTransaction → IssuedToken → Charge
  charge_of txn token = record {
    payment_authorization_id = txn.payment_authorization_id;
    idempotency_key = txn.idempotency_key;
    amount = txn.amount;
    currency = txn.currency;
    merchant_id = txn.merchant_id;
    cart_hash = txn.cart_hash;
    token = token.token;
  }

  unfoldable pub post : CanonicalTransaction → IssuedToken → (Charge → Reply) → Run ProviderOutcome
  unfolding on_reply
  post txn token provider w =
      let c = charge_of txn token in on_reply txn (provider c) (record w { posts = c ∷ w.posts })

  unfoldable pub consume :
      CanonicalTransaction
      → IssuedToken
      → (Charge → Reply)
      → World
      → Option Row
      → Result Fault ProviderOutcome × World
  unfolding post
  consume txn token provider w none = (err (key_error txn.payment_authorization_id), w)
  consume txn token provider w (some r) =
      if ltb 0 r.token_uses
      then (
        ok (record {
          state = failed;
          provider_reference = none;
          detail = "token already consumed";
        }),
        w,
      )
      else and_then
          (set_state env txn.payment_authorization_id submitted none none true
            (put txn.payment_authorization_id (record r { token_uses = suc r.token_uses }) w))
          (λ _. post txn token provider)

  unfoldable pub submit :
      CanonicalTransaction → IssuedToken → (Charge → Reply) → Run ProviderOutcome
  unfolding consume
  submit txn token provider w =
      consume txn token provider w (lookup txn.payment_authorization_id w.rows)
