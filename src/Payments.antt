-- ===== src/Payments.antt =====
-- payments.py: the reference id that leads a webhook back to its order, the payment link, and the
-- reading of Razorpay's payloads. HMAC is an argument.
pub mod Reference
use Prim.Native.String.{◌++◌ as str_append}
use Prim.Native.Char.{code}
use whatsapp_commerce_bot.Base.{
  ℕ, String, Bool, false, ◌&&◌, not, Option, none, some, ◌==◌, str_eq, truthy, or_else,
  if◌then◌else◌,
}
use whatsapp_commerce_bot.Base.Int.{ℤ}
use whatsapp_commerce_bot.Base.Numeral.{decimal, int}
use whatsapp_commerce_bot.Db.{Tenant, Order}
use whatsapp_commerce_bot.World.{Env, LinkRequest}

-- EVENT_PAID and so on.
pub data EventType : Type 0 where
  paid expired failed unknown : EventType

-- The parts of a payload that are read: of `payload.payment_link.entity` and
-- `payload.payment.entity`, each with nothing where it is missing.
pub record Entity : Type 0 where
  pub id : Option String
  pub reference_id : Option String
  pub notes_reference_id : Option String
  pub method : Option String

pub record Payload : Type 0 where
  pub event : String
  pub payment_link : Entity
  pub payment : Entity

pub record PaymentWebhookEvent : Type 0 where
  pub event_type : EventType
  pub reference : Option (ℤ × ℤ)
  pub payment_gateway_reference : Option String
  pub payment_method : Option String

unfoldable pub build_reference_id : ℕ → ℕ → String
build_reference_id tenant_id order_id =
    str_append (decimal tenant_id) (str_append ":" (decimal order_id))

-- `partition(":")`, if there is a colon.
unfoldable pub partition : String → Option (String × String)
partition String.[] = none
partition (String.◌∷◌ c s) =
    let rest = partition s in
    if code c == 58
    then some ("", s)
    else elim rest [ none ↦ none | some (before, after) ↦ some (String.◌∷◌ c before, after) ]

abbrev both : Option ℤ → Option ℤ → Option (ℤ × ℤ)
both (some a) (some b) = some (a, b)
both (some a) none = none
both none b = none

abbrev read_parts : Option (String × String) → Option (ℤ × ℤ)
read_parts none = none
read_parts (some (tenant, order)) = both (int tenant) (int order)

-- The pair of None is `none`.
unfoldable pub parse_reference_id : Option String → Option (ℤ × ℤ)
parse_reference_id none = none
parse_reference_id (some s) = read_parts (partition s)

pub data LinkResult : Type 0 where
  not_configured api_error : LinkResult
  link : (url id : String) → LinkResult

abbrev answered : Option (String × String) → LinkResult
answered none = api_error
answered (some (url, id)) = link url id

-- An order without a total raises TypeError, which the callers take for a failure of the API.
unfoldable pub create_payment_link : Env → Tenant → Order → LinkResult
create_payment_link env tenant order =
    if truthy tenant.payment_gateway_key_id && truthy tenant.payment_gateway_api_key_ref
    then elim order.total [
      | none ↦ api_error
      | some total ↦ answered (
          env.gateway (record {
            key_id = or_else tenant.payment_gateway_key_id "";
            key_secret = or_else tenant.payment_gateway_api_key_ref "";
            amount = total;
            order_id = order.id;
            contact = order.customer_phone;
            reference_id = build_reference_id tenant.id order.id;
          }))
    ]
    else not_configured

-- `hmac` gives the hex digest of a body under a secret.
unfoldable pub validate_payment_webhook_signature :
    (hmac : String → String → String) → String → String → Option String → Bool
validate_payment_webhook_signature hmac body signature none = false
validate_payment_webhook_signature hmac body signature (some secret) =
    truthy (some secret) && truthy (some signature) && str_eq (hmac secret body) signature

abbrev first_truthy : Option String → Option String → Option String
first_truthy a b = if truthy a then a else b

abbrev or_none : Option String → Option String
or_none a = if truthy a then a else none

unfoldable pub extract_reference_id : Payload → Option String
extract_reference_id p = first_truthy p.payment_link.reference_id (
    first_truthy p.payment_link.notes_reference_id
      (first_truthy p.payment.reference_id (or_none p.payment.notes_reference_id)))

unfoldable pub extract_payment_gateway_reference : Payload → Option String
extract_payment_gateway_reference p = first_truthy p.payment.id p.payment_link.id

unfoldable pub extract_payment_method : Payload → Option String
extract_payment_method p = p.payment.method

-- `_EVENT_MAP`
unfoldable pub event_type_of : String → EventType
event_type_of event =
    if str_eq event "payment_link.paid"
    then paid
    else if str_eq event "payment_link.expired"
    then expired
    else if str_eq event "payment.failed"
    then failed
    else unknown

unfoldable pub parse_payment_webhook : Payload → PaymentWebhookEvent
parse_payment_webhook p = record {
  event_type = event_type_of p.event;
  reference = parse_reference_id (extract_reference_id p);
  payment_gateway_reference = extract_payment_gateway_reference p;
  payment_method = extract_payment_method p;
}
