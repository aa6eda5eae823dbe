-- ===== src/PaymentWebhook.antt =====
-- `receive_payment_webhook` of core/main.py. HMAC is an argument, and so is the JSON reader's result,
-- which is nothing for a malformed body.
pub mod Signed
pub mod Isolation
use whatsapp_commerce_bot.Base.{
  ℕ, String, Bool, true, false, ◌&&◌, Option, none, some, truthy, if◌then◌else◌,
}
use whatsapp_commerce_bot.Base.Int.{ℤ, pos, negsuc, by_id}
use whatsapp_commerce_bot.Db.{Tenant}
use whatsapp_commerce_bot.Db.Tenants.{get_tenant}
use whatsapp_commerce_bot.Payments.{
  EventType, paid, expired, failed, unknown, Payload, PaymentWebhookEvent, parse_payment_webhook,
  validate_payment_webhook_signature,
}
use whatsapp_commerce_bot.World.{Env, World, Action, pure, query, ◌>>=◌, ◌>>◌, on_some, skip}
use whatsapp_commerce_bot.Flow.Webhooks.{handle_payment_success, handle_payment_failure}

-- The status codes 200 and 403.
pub data Response : Type 0 where
  accepted forbidden : Response

-- No order has a negative id: the handlers find none and return.
abbrev pub for_order : ℤ → (ℕ → Action (Unit {0})) → Action (Unit {0})
for_order (pos n) act = act n
for_order (negsuc n) act = skip

module _ (env : Env) where
  unfoldable pub act_on : Tenant → ℤ → PaymentWebhookEvent → EventType → Action (Unit {0})
  act_on tenant order_id event paid = for_order order_id λ n.
      handle_payment_success env tenant.id n event.payment_gateway_reference event.payment_method
  act_on tenant order_id event expired =
      for_order order_id λ n. handle_payment_failure env tenant n true
  act_on tenant order_id event failed =
      for_order order_id λ n. handle_payment_failure env tenant n false
  act_on tenant order_id event unknown = skip

  module _ (hmac : String → String → String) (body signature : String) where
    unfoldable pub verified : Tenant → ℤ → PaymentWebhookEvent → Action Response
    verified tenant order_id event =
        if truthy tenant.payment_gateway_webhook_secret
        then (if validate_payment_webhook_signature hmac body signature
              tenant.payment_gateway_webhook_secret
            then (do act_on tenant order_id event event.event_type; pure accepted)
            else pure forbidden)
        else pure accepted

    unfoldable pub routed : PaymentWebhookEvent → ℤ × ℤ → Action Response
    routed event (tenant_id, order_id) = do
      tenant ← query (λ d. by_id (λ n. get_tenant n d) tenant_id)
      on_some tenant (pure accepted) λ t. verified t order_id event

    unfoldable pub receive_payment_webhook : Option Payload → Action Response
    receive_payment_webhook payload = on_some payload (pure accepted) λ p.
        on_some (parse_payment_webhook p).reference (pure accepted)
          (routed (parse_payment_webhook p))
