-- ===== src/Canonical.antt =====
-- The canonical transaction, gateway/canonical.py, and the hashes of gateway/schemas.py. SHA-256,
-- `json.dumps` and `str` on decimals and integers are the library's: arguments.
pub mod Bucket
use Prim.Native.Nat.{Ordering}
use Prim.Native.String.{compare}
use agent_pay_sentinel.Prelude.{
  ℕ, ◌+◌, ◌/◌, String, ◌<>◌, Bool, true, false, Option, none, some, List, [], ◌∷◌, eqb,
  if◌then◌else◌,
}
use agent_pay_sentinel.Clock.{second, seconds}
use agent_pay_sentinel.Json.{Json, Items, nil, cons, Fields, end, field, text, num, arr, obj}
use agent_pay_sentinel.Money.{Decimal}
use agent_pay_sentinel.Schemas.{SourceType, CartItem, PaymentIntent}
use agent_pay_sentinel.Identity.{AgentIdentity}

pub record Hashing : Type 0 where
  pub sha256 : String → String
  -- with `separators=(",", ":")` and `sort_keys=True`
  pub dumps_compact : Json → String
  -- with `default=str` and `sort_keys=True`
  pub dumps : Json → String
  pub str_decimal : Decimal → String
  pub str_int : ℕ → String

pub record UntrustedContent : Type 0 where
  pub merchant_text : String
  pub merchant_source_type : SourceType
  pub merchant_source_url : String
  pub purpose : String
  pub tool_arguments_text : String

pub record CanonicalTransaction : Type 0 where
  pub payment_authorization_id : String
  pub idempotency_key : String
  pub payload_hash : String
  pub fingerprint : String
  pub user_id : String
  pub agent_id : String
  pub delegation_id : String
  pub agent_scopes : List String
  pub merchant_id : String
  pub merchant_verified_claim : Bool
  pub amount : Decimal
  pub currency : String
  pub cart_hash : String
  pub item_count : ℕ
  pub untrusted : UntrustedContent
  pub approval_token : Option String

-- `sorted(items, key=lambda i: i.sku)`: stable, by code points
place : CartItem → List CartItem → List CartItem
place i [] = i ∷ []
place i (j ∷ js) = elim (compare i.sku j.sku) [ Ordering.gt ↦ j ∷ place i js | _ ↦ i ∷ j ∷ js ]

unfoldable pub sort_by_sku : List CartItem → List CartItem
unfolding place
sort_by_sku [] = []
sort_by_sku (i ∷ is) = place i (sort_by_sku is)

-- `sum(i.quantity for i in items)`
total_quantity : List CartItem → ℕ
total_quantity [] = 0
total_quantity (i ∷ is) = i.quantity + total_quantity is

-- `window_seconds or get_settings().fingerprint_window_seconds`
abbrev pub window_of : Option ℕ → ℕ → ℕ
window_of none default = default
window_of (some w) default = if eqb w 0 then default else w

-- `int(math.floor(ts / window))`
unfoldable pub bucket : ℕ → ℕ → ℕ
bucket ts window = ts / seconds window

abbrev is_none : Fields → Bool
is_none end = true
is_none (field k v fs) = false

module _ (h : Hashing) where
  cart_items : List CartItem → Items
  cart_items [] = nil
  cart_items (i ∷ is) =
      cons
        (obj (
          field "sku" (text i.sku) (
            field "quantity" (num i.quantity)
              (field "unit_price" (text (h.str_decimal i.unit_price)) end))))
        (cart_items is)

  unfoldable pub cart_hash : PaymentIntent → String
  unfolding cart_items sort_by_sku
  cart_hash intent = h.sha256 (h.dumps_compact (arr (cart_items (sort_by_sku intent.items))))

  unfoldable pub payload_hash : PaymentIntent → String
  unfolding cart_hash
  payload_hash intent = h.sha256 (
      h.dumps_compact (
        obj (
          field "user_id" (text intent.user_id) (
            field "agent_id" (text intent.agent_id) (
              field "merchant_id" (text intent.merchant_id) (
                field "amount" (text (h.str_decimal intent.amount)) (
                  field "currency" (text intent.currency)
                    (field "cart_hash" (text (cart_hash intent)) end))))))))

  unfoldable pub transaction_fingerprint :
      String → String → String → Decimal → String → ℕ → Option ℕ → ℕ → String
  unfolding bucket
  transaction_fingerprint user_id merchant_id cart amount currency ts window_seconds default =
      h.sha256 (
        user_id
        <> "|"
        <> merchant_id
        <> "|"
        <> cart
        <> "|"
        <> h.str_decimal amount
        <> "|"
        <> currency
        <> "|"
        <> h.str_int (bucket ts (window_of window_seconds default)))

  -- `ts` is the reading of the clock, `default` the window of the settings.
  unfoldable pub build_canonical :
      PaymentIntent → AgentIdentity → String → ℕ → ℕ → CanonicalTransaction
  unfolding cart_hash payload_hash transaction_fingerprint total_quantity
  build_canonical intent identity payment_authorization_id ts default = record {
    payment_authorization_id = payment_authorization_id;
    idempotency_key = intent.idempotency_key;
    payload_hash = payload_hash intent;
    fingerprint =
        transaction_fingerprint identity.user_id intent.merchant_id (cart_hash intent) intent.amount
          intent.currency ts none default;
    user_id = identity.user_id;
    agent_id = identity.agent_id;
    delegation_id = identity.delegation_id;
    agent_scopes = identity.scopes;
    merchant_id = intent.merchant_id;
    merchant_verified_claim = intent.merchant_verified;
    amount = intent.amount;
    currency = intent.currency;
    cart_hash = cart_hash intent;
    item_count = total_quantity intent.items;
    untrusted = record {
      merchant_text = intent.merchant_content.text;
      merchant_source_type = intent.merchant_content.source_type;
      merchant_source_url = intent.merchant_content.source_url;
      purpose = intent.purpose;
      tool_arguments_text =
          if is_none intent.tool_arguments then "" else h.dumps (obj intent.tool_arguments);
    };
    approval_token = intent.approval_token;
  }
