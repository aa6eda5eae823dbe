-- ===== src/Flow/Webhooks.antt =====
-- The payment webhook's and the portal's handlers of core/commerce_flow.py.
pub mod Delivery
pub mod Repeats
use whatsapp_commerce_bot.Base.{
  ℕ, String, Bool, true, false, Option, none, some, List, [], ◌∷◌, truthy, or_else, if◌then◌else◌,
}
use whatsapp_commerce_bot.Db.{Tenant, Order}
use whatsapp_commerce_bot.Db.Orders.{
  get_order, mark_order_paid, mark_order_failed, update_order_payment_link,
}
use whatsapp_commerce_bot.Message.{text, number, Arg, Part, say}
use whatsapp_commerce_bot.Payments.{
  LinkResult, not_configured, api_error, link, create_payment_link,
}
use whatsapp_commerce_bot.World.{
  Env, World, Action, query, call, execute, ◌>>=◌, ◌>>◌, on_some, skip,
}
use whatsapp_commerce_bot.Flow.Prompts.{send_text}

module _ (env : Env) where
  -- A text to the order's customer, in the order's language, with its id and the arguments.
  unfoldable pub tell_customer : Order → String → List (String × Arg) → Action (Unit {0})
  tell_customer o key args =
      send_text env o.customer_phone (say key o.language (("id", number o.id) ∷ args) ∷ [])

  -- `handle_payment_success`
  unfoldable pub handle_payment_success : ℕ → ℕ → Option String → Option String → Action (Unit {0})
  handle_payment_success tenant_id order_id reference method = do
    order ← query (get_order tenant_id order_id)
    on_some order skip λ o. (do
      transitioned ← call (mark_order_paid tenant_id order_id reference env.clock.now method)
      if transitioned then tell_customer o "payment_received" [] else skip)

  unfoldable pub offer_retry : Tenant → Order → LinkResult → Action (Unit {0})
  offer_retry tenant o not_configured = tell_customer o "payment_problem_no_gateway" []
  offer_retry tenant o api_error = tell_customer o "payment_link_retry_failed" []
  offer_retry tenant o (link url id) = do
    execute (update_order_payment_link tenant.id o.id url (some id))
    tell_customer o "payment_link_expired_new" (("url", text url) ∷ [])

  unfoldable pub failure_notice : Tenant → Bool → Order → Action (Unit {0})
  failure_notice tenant true o = offer_retry tenant o (create_payment_link env tenant o)
  failure_notice tenant false o =
      if truthy o.payment_link_url
      then tell_customer o "payment_failed_retry"
          (("url", text (or_else o.payment_link_url "")) ∷ [])
      else tell_customer o "payment_failed_no_link" []

  -- `handle_payment_failure`
  unfoldable pub handle_payment_failure : Tenant → ℕ → (link_expired : Bool) → Action (Unit {0})
  handle_payment_failure tenant order_id link_expired = do
    order ← query (get_order tenant.id order_id)
    on_some order skip λ o. (do
      transitioned ← call (mark_order_failed tenant.id order_id)
      if transitioned then failure_notice tenant link_expired o else skip)

  -- `handle_order_fulfilled`
  unfoldable pub handle_order_fulfilled : Order → Action (Unit {0})
  handle_order_fulfilled o = tell_customer o "order_fulfilled" []
