-- ===== src/Flow/Dispatch.antt =====
-- `_handle_idle` and `handle_incoming` of core/commerce_flow.py: which handler a message goes to.
use whatsapp_commerce_bot.Base.{
  ℕ, String, Bool, false, ◌||◌, Option, none, some, str_eq, if◌then◌else◌,
}
use whatsapp_commerce_bot.Base.Text.{strip, lower_is_in}
use whatsapp_commerce_bot.Db.{Lang, en, hi}
use whatsapp_commerce_bot.Message.{Reply, interactive_reply}
use whatsapp_commerce_bot.Sessions.{
  State, idle, shop_list, product_detail, post_add, cart, apply_coupon, collect_name, order_list,
  order_detail, Context, Session, empty_context,
}
use whatsapp_commerce_bot.World.{Env, Action, ◌>>=◌, ◌>>◌, on_some, get_session, set_session}
use whatsapp_commerce_bot.Flow.Rows.{is_main_menu_id, reset_keywords}
use whatsapp_commerce_bot.Flow.Prompts.{
  phrase, send_text, send_language_prompt, send_main_menu, send_offers,
}
use whatsapp_commerce_bot.Flow.Checkout.{with_language}
use whatsapp_commerce_bot.Flow.Shop.{
  tapped, handle_shop_list, handle_product_detail, handle_post_add, handle_cart,
  handle_apply_coupon, handle_collect_name,
}
use whatsapp_commerce_bot.Flow.Orders.{
  start_shop, start_orders_list, handle_order_list, handle_order_detail,
}

-- The language whose button was tapped.
unfoldable pub chosen_language : Option String → Option Lang
chosen_language none = none
chosen_language (some rid) =
    if str_eq rid "lang_en" then some en else if str_eq rid "lang_hi" then some hi else none

-- The text of the message that is a RESET_KEYWORD.
unfoldable pub is_reset : Reply → Bool
is_reset (Reply.text s) = lower_is_in (strip s) reset_keywords
is_reset (interactive_reply id title) = false
is_reset Reply.audio = false
is_reset (Reply.order items) = false
is_reset Reply.unsupported = false

unfoldable pub is_menu_tap : Reply → Bool
is_menu_tap (interactive_reply id title) = is_main_menu_id id
is_menu_tap (Reply.text s) = false
is_menu_tap Reply.audio = false
is_menu_tap (Reply.order items) = false
is_menu_tap Reply.unsupported = false

module _ (env : Env) (phone : String) (tenant_id : ℕ) (tenant_name : String) where
  unfoldable pub menu_in : Lang → Action (Unit {0})
  menu_in lang = do
    set_session env tenant_id phone idle (with_language lang)
    send_main_menu env phone tenant_name lang

  unfoldable pub ask_language : Action (Unit {0})
  ask_language = do
    set_session env tenant_id phone idle empty_context
    send_language_prompt env phone

  show_offers : Lang → Action (Unit {0})
  show_offers lang = do
    set_session env tenant_id phone idle (with_language lang)
    send_offers env phone tenant_id lang

  say_only : Lang → String → Action (Unit {0})
  say_only lang key = do
    set_session env tenant_id phone idle (with_language lang)
    send_text env phone (phrase lang key)

  -- The main menu's items.
  unfoldable pub menu_choice : Lang → String → Action (Unit {0})
  unfolding menu_in show_offers say_only
  menu_choice lang rid =
      if str_eq rid "menu_shop"
      then start_shop env phone tenant_id lang
      else if str_eq rid "menu_my_orders" || str_eq rid "menu_track_order"
      then start_orders_list env phone tenant_id lang
      else if str_eq rid "menu_offers"
      then show_offers lang
      else if str_eq rid "menu_account"
      then say_only lang "account_coming_soon"
      else if str_eq rid "menu_talk_to_us"
      then say_only lang "talk_to_us_coming_soon"
      else menu_in lang

  -- `_handle_idle`
  unfoldable pub handle_idle : Reply → Context → Action (Unit {0})
  unfolding menu_in ask_language
  handle_idle reply context =
      on_some (chosen_language (tapped reply))
        (on_some context.language ask_language
          λ lang. on_some (tapped reply) (menu_in lang) (menu_choice lang))
        menu_in

  -- `_HANDLERS`, and IDLE for every other state.
  unfoldable pub handler : State → Reply → Context → Action (Unit {0})
  handler idle reply c = handle_idle reply c
  handler shop_list reply c = handle_shop_list env phone tenant_id c reply
  handler product_detail reply c = handle_product_detail env phone tenant_id c reply
  handler post_add reply c = handle_post_add env phone tenant_id c reply
  handler cart reply c = handle_cart env phone tenant_id c reply
  handler apply_coupon reply c = handle_apply_coupon env phone tenant_id c reply
  handler collect_name reply c = handle_collect_name env phone tenant_id c reply
  handler order_list reply c = handle_order_list env phone tenant_id c reply
  handler order_detail reply c = handle_order_detail env phone tenant_id c reply

  unfoldable pub dispatch : Reply → Session → Action (Unit {0})
  dispatch reply session =
      if is_reset reply || is_menu_tap reply
      then handle_idle reply session.context
      else handler session.state reply session.context

  unfoldable pub handle_incoming : Reply → Action (Unit {0})
  handle_incoming reply = do session ← get_session env tenant_id phone; dispatch reply session
