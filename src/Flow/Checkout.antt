-- ===== src/Flow/Checkout.antt =====
-- The checkout of core/commerce_flow.py: the name prompt, the session's reset, and the shared tail of
-- both checkout paths, which places the order and makes its payment link.
use whatsapp_commerce_bot.Base.{
  ℕ, zero, String, Bool, true, false, ◌&&◌, Option, none, some, List, [], ◌∷◌, ◌++◌, map, length,
  is_empty, truthy, or_else, ◌==◌, if◌then◌else◌,
}
use whatsapp_commerce_bot.Db.{Database, Tenant, Order, Lang}
use whatsapp_commerce_bot.Db.Tenants.{get_tenant}
use whatsapp_commerce_bot.Db.Customers.{get_customer}
use whatsapp_commerce_bot.Db.Orders.{get_order_items, update_order_payment_link}
use whatsapp_commerce_bot.Db.Checkout.{Cart, checkout_cart}
use whatsapp_commerce_bot.Message.{text, number, money, names, Part, say, newline}
use whatsapp_commerce_bot.Payments.{
  LinkResult, not_configured, api_error, link, create_payment_link,
}
use whatsapp_commerce_bot.Sessions.{idle, collect_name, Context, empty_context}
use whatsapp_commerce_bot.World.{
  Env, Action, query, call, execute, ◌>>=◌, ◌>>◌, on_some, set_session,
}
use whatsapp_commerce_bot.Flow.Rows.{product_name}
use whatsapp_commerce_bot.Flow.Prompts.{item_lines, phrase, send_text}

abbrev pub with_language : Lang → Context
with_language lang = record empty_context { language = some lang }

is_positive : Option ℕ → Bool
is_positive none = false
is_positive (some zero) = false
is_positive (some n) = true

-- The lines of a discount that was applied and is not zero.
unfoldable pub discount_lines : Order → Lang → List Part
unfolding is_positive
discount_lines o lang =
    if truthy o.coupon_code && is_positive o.discount_amount
    then say "subtotal_label" lang (("amount", money (or_else o.subtotal 0)) ∷ [])
      ∷ newline
      ∷ say "coupon_discount_label" lang (
          ("code", text (or_else o.coupon_code ""))
          ∷ ("amount", money (or_else o.discount_amount 0))
          ∷ [])
      ∷ newline
      ∷ []
    else []

unfoldable pub removed_lines : ℕ → Lang → List ℕ → Database → List Part
removed_lines tenant_id lang [] d = []
removed_lines tenant_id lang (p ∷ ps) d =
    let dropped_names = map (λ id. product_name tenant_id id d) (p ∷ ps) in
    newline
    ∷ newline
    ∷ say "items_removed_note" lang (
        ("names", names dropped_names)
        ∷ ("verb", text (if length dropped_names == 1 then "was" else "were"))
        ∷ [])
    ∷ []

unfoldable pub order_lines : ℕ → Lang → Order → List ℕ → Database → List Part
order_lines tenant_id lang o unavailable d =
    (say "order_placed_confirmation" lang (("id", number o.id) ∷ []) ∷ newline ∷ newline ∷ [])
    ++ (item_lines tenant_id d (get_order_items tenant_id o.id d)
        ++ ((newline ∷ discount_lines o lang)
            ++ (say "order_total_label" lang (("amount", money (or_else o.total 0)) ∷ [])
                ∷ removed_lines tenant_id lang unavailable d)))

-- A tenant that is gone raises AttributeError, which counts as a failure of the gateway.
abbrev link_for : Env → Option Tenant → Order → LinkResult
link_for env none o = api_error
link_for env (some tenant) o = create_payment_link env tenant o

module _ (env : Env) (phone : String) (tenant_id : ℕ) where
  -- The end of the confirmation, and the link's way onto the order.
  unfoldable pub finish_checkout : Lang → Order → List Part → LinkResult → Action (Unit {0})
  finish_checkout lang o message not_configured =
      send_text env phone (message ++ newline ∷ newline ∷ phrase lang "payment_coming_next")
  finish_checkout lang o message api_error =
      send_text env phone (message ++ newline ∷ newline ∷ phrase lang "payment_link_failed")
  finish_checkout lang o message (link url id) = do
    execute (update_order_payment_link tenant_id o.id url (some id))
    send_text env phone
        (message ++ newline ∷ newline ∷ say "pay_here" lang (("url", text url) ∷ []) ∷ [])

  unfoldable pub confirm_order : Lang → List ℕ → Order → Action (Unit {0})
  confirm_order lang unavailable o = do
    message ← query (order_lines tenant_id lang o unavailable)
    tenant ← query (get_tenant tenant_id)
    finish_checkout lang o message (link_for env tenant o)

  unfoldable pub place : Cart → Lang → Option String → Action (Option Order × List ℕ)
  place cart lang coupon_code = call λ d.
      let (o, unavailable, d') = checkout_cart env.clock tenant_id phone cart lang coupon_code d in
      ((o, unavailable), d')

  -- `_complete_checkout_from_cart`
  unfoldable pub complete_checkout_from_cart : Cart → Lang → Option String → Action (Unit {0})
  unfolding confirm_order
  complete_checkout_from_cart cart lang coupon_code = do
    placed ← place cart lang coupon_code
    on_some placed.0 (send_text env phone (phrase lang "cart_items_unavailable"))
        (confirm_order lang placed.1)

  -- `_checkout`
  unfoldable pub checkout : Cart → Lang → Option String → Action (Unit {0})
  checkout cart lang coupon_code = do
    set_session env tenant_id phone idle (with_language lang)
    if is_empty cart
        then send_text env phone (phrase lang "cart_empty_checkout")
        else complete_checkout_from_cart cart lang coupon_code

  -- `_start_checkout`
  unfoldable pub start_checkout : Cart → Lang → Option String → Action (Unit {0})
  start_checkout cart lang coupon_code =
      if is_empty cart then checkout cart lang coupon_code else (do
        customer ← query (get_customer tenant_id phone)
        on_some customer
            (do
              set_session env tenant_id phone collect_name (record empty_context {
                language = some lang;
                cart = some cart;
                coupon_code = coupon_code;
              })
              send_text env phone (phrase lang "ask_customer_name"))
            λ c. checkout cart lang coupon_code)
