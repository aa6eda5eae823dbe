-- ===== src/Flow/Orders.antt =====
-- The order handlers of core/commerce_flow.py, and the starters that IDLE calls.
use whatsapp_commerce_bot.Base.{ℕ, String, some, [], str_eq, if◌then◌else◌}
use whatsapp_commerce_bot.Base.Int.{by_id}
use whatsapp_commerce_bot.Db.{Order, Lang}
use whatsapp_commerce_bot.Db.Orders.{get_order}
use whatsapp_commerce_bot.Message.{Reply}
use whatsapp_commerce_bot.Sessions.{
  idle, shop_list, order_list, order_detail, Context, empty_context,
}
use whatsapp_commerce_bot.World.{Env, Action, query, ◌>>=◌, ◌>>◌, on_some, skip, set_session}
use whatsapp_commerce_bot.Flow.Rows.{parse_order_row_id}
use whatsapp_commerce_bot.Flow.Pages.{send_product_list}
use whatsapp_commerce_bot.Flow.Prompts.{
  phrase, send_text, send_main_menu, send_orders_list, send_order_detail,
}
use whatsapp_commerce_bot.Flow.Checkout.{with_language}
use whatsapp_commerce_bot.Flow.Shop.{lang_of, tapped}

module _ (env : Env) (phone : String) (tenant_id : ℕ) where
  nothing_to_show : Lang → String → Action (Unit {0})
  nothing_to_show lang key = do
    set_session env tenant_id phone idle (with_language lang)
    send_text env phone (phrase lang key)

  -- `_start_shop`
  unfoldable pub start_shop : Lang → Action (Unit {0})
  unfolding nothing_to_show
  start_shop lang = do
    sent ← send_product_list env phone tenant_id 0 lang
    if sent
        then set_session env tenant_id phone shop_list
            (record empty_context { language = some lang; shop_offset = some 0; cart = some [] })
        else nothing_to_show lang "no_products_available"

  -- `_start_orders_list`
  unfoldable pub start_orders_list : Lang → Action (Unit {0})
  unfolding nothing_to_show
  start_orders_list lang = do
    sent ← send_orders_list env phone tenant_id phone lang
    if sent
        then set_session env tenant_id phone order_list (with_language lang)
        else nothing_to_show lang "no_orders_yet"

module _ (env : Env) (phone : String) (tenant_id : ℕ) (context : Context) where
  abbrev lang : Lang
  lang = lang_of context

  orders_again : Action (Unit {0})
  orders_again = do
    set_session env tenant_id phone order_list context
    send_text env phone (phrase lang "please_choose")
    send_orders_list env phone tenant_id phone lang
    skip

  open_order : Order → Action (Unit {0})
  open_order o = do
    set_session env tenant_id phone order_detail (record context { order_id = some o.id })
    send_order_detail env phone tenant_id o lang

  -- `_handle_order_list`: another customer's order is not shown.
  unfoldable pub handle_order_list : Reply → Action (Unit {0})
  unfolding orders_again open_order
  handle_order_list reply = on_some (tapped reply) orders_again λ rid.
      on_some (parse_order_row_id rid) orders_again λ id. (do
        found ← query (λ d. by_id (λ n. get_order tenant_id n d) id)
        on_some found orders_again
            λ o. if str_eq o.customer_phone phone then open_order o else orders_again)

  to_main_menu : Action (Unit {0})
  to_main_menu = do
    set_session env tenant_id phone idle (with_language lang)
    send_main_menu env phone "the store" lang

  order_missing : Action (Unit {0})
  order_missing = do
    set_session env tenant_id phone idle (with_language lang)
    send_text env phone (phrase lang "order_not_found")

  detail_again : Order → Action (Unit {0})
  detail_again o = do
    set_session env tenant_id phone order_detail context
    send_text env phone (phrase lang "please_choose")
    send_order_detail env phone tenant_id o lang

  order_again : Action (Unit {0})
  unfolding order_missing detail_again
  order_again =
      on_some context.order_id order_missing
        λ id. (do found ← query (get_order tenant_id id); on_some found order_missing detail_again)

  -- `_handle_order_detail`
  unfoldable pub handle_order_detail : Reply → Action (Unit {0})
  unfolding to_main_menu order_again
  handle_order_detail reply =
      on_some (tapped reply) order_again
        λ rid. if str_eq rid "main_menu" then to_main_menu else order_again
