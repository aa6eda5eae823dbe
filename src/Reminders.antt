-- ===== src/Reminders.antt =====
-- reminders/scheduler.py: the nudges for orders whose payment is still to come.
pub mod Runs
pub mod Endpoint
pub mod Again
use whatsapp_commerce_bot.Base.{
  ℕ, suc, String, Bool, Option, none, some, List, [], ◌∷◌, truthy, or_else, if◌then◌else◌,
}
use whatsapp_commerce_bot.Db.{Order}
use whatsapp_commerce_bot.Db.Tenants.{get_tenant}
use whatsapp_commerce_bot.Db.Orders.{get_abandoned_orders, mark_nudge_sent}
use whatsapp_commerce_bot.Message.{text, number, Part, say}
use whatsapp_commerce_bot.World.{Env, World, Action, pure, query, call, ◌>>=◌, ◌>>◌, on_some, skip}
use whatsapp_commerce_bot.Flow.Prompts.{send_text}

-- `_nudge_message`
unfoldable pub nudge_message : Order → Part
nudge_message o =
    if truthy o.payment_link_url
    then say "nudge_with_link" o.language
        (("id", number o.id) ∷ ("url", text (or_else o.payment_link_url "")) ∷ [])
    else say "nudge_without_link" o.language (("id", number o.id) ∷ [])

module _ (env : Env) (tenant_id : ℕ) where
  -- The loop over the orders, and how many nudges it sent.
  unfoldable pub nudge_all : List Order → Action ℕ
  nudge_all [] = pure 0
  nudge_all (o ∷ orders) = do
    claimed ← call (mark_nudge_sent tenant_id o.id env.clock.now)
    (if claimed then send_text env o.customer_phone (nudge_message o ∷ []) else skip)
    sent ← nudge_all orders
    pure (if claimed then suc sent else sent)

  unfoldable pub send_abandoned_cart_nudges : Action ℕ
  send_abandoned_cart_nudges = do
    tenant ← query (get_tenant tenant_id)
    on_some tenant (pure 0) λ t. (do
      orders ← query (get_abandoned_orders tenant_id t.abandoned_cart_nudge_hours env.clock.now)
      nudge_all orders)
