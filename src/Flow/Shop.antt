-- ===== src/Flow/Shop.antt =====
-- The shopping handlers of core/commerce_flow.py: each moves the session on a tap that it knows, and
-- on any other input sends its prompt again.
use whatsapp_commerce_bot.Base.{
  ℕ, suc, ◌+◌, ◌-◌, String, not, Option, none, some, [], ◌∷◌, length, leb, str_eq, truthy, or_else,
  if◌then◌else◌,
}
use whatsapp_commerce_bot.Base.Int.{pos, ltb_ℤ, leb_ℤ, by_id}
use whatsapp_commerce_bot.Base.Text.{strip}
use whatsapp_commerce_bot.Db.{Product, Lang}
use whatsapp_commerce_bot.Db.Products.{get_product, get_active_products}
use whatsapp_commerce_bot.Db.Customers.{set_customer_name}
use whatsapp_commerce_bot.Db.Coupons.{
  CouponError, not_found, inactive, expired, get_coupon_by_code, coupon_validity_error,
}
use whatsapp_commerce_bot.Db.Checkout.{Cart}
use whatsapp_commerce_bot.Message.{text, integer, say, Reply, interactive_reply}
use whatsapp_commerce_bot.Sessions.{
  State, idle, shop_list, product_detail, post_add, cart, apply_coupon, collect_name, Context,
}
use whatsapp_commerce_bot.World.{Env, Action, query, call, ◌>>=◌, ◌>>◌, on_some, skip, set_session}
use whatsapp_commerce_bot.Flow.Rows.{
  max_list_rows, default_lang, parse_product_row_id, quantity_in, put_in,
}
use whatsapp_commerce_bot.Flow.Pages.{send_product_list}
use whatsapp_commerce_bot.Flow.Prompts.{
  phrase, send_text, send_main_menu, send_product_detail, send_add_to_cart_prompt, send_cart_prompt,
  send_cart,
}
use whatsapp_commerce_bot.Flow.Checkout.{with_language, checkout, start_checkout}

abbrev pub lang_of : Context → Lang
lang_of c = or_else c.language default_lang

abbrev pub cart_of : Context → Cart
cart_of c = or_else c.cart []

abbrev pub offset_of : Context → ℕ
offset_of c = or_else c.shop_offset 0

-- The id of a tapped row or button, where the reply is one.
abbrev pub tapped : Reply → Option String
tapped (interactive_reply id title) = some id
tapped r = none

-- `reply.get("text", "").strip() if reply["type"] == "text" else ""`
unfoldable pub typed : Reply → String
typed (Reply.text s) = strip s
typed (interactive_reply id title) = ""
typed Reply.audio = ""
typed (Reply.order items) = ""
typed Reply.unsupported = ""

abbrev pub error_key : CouponError → String
error_key not_found = "coupon_error_not_found"
error_key inactive = "coupon_error_inactive"
error_key expired = "coupon_error_expired"

module _ (env : Env) (phone : String) (tenant_id : ℕ) (context : Context) where
  abbrev lang : Lang
  lang = lang_of context

  abbrev move : State → Context → Action (Unit {0})
  move state c = set_session env tenant_id phone state c

  abbrev tell : String → Action (Unit {0})
  tell key = send_text env phone (phrase lang key)

  abbrev show_products : ℕ → Action (Unit {0})
  show_products offset = do send_product_list env phone tenant_id offset lang; skip

  -- The page that the customer is on, once more.
  back_to_list : Action (Unit {0})
  back_to_list = do move shop_list context; show_products (offset_of context)

  item_unavailable : Action (Unit {0})
  item_unavailable = do
    move shop_list context
    tell "item_unavailable"
    show_products (offset_of context)

  choose_again : Action (Unit {0})
  choose_again = do move shop_list context; tell "please_choose"; show_products (offset_of context)

  unfoldable pub next_page : Action (Unit {0})
  next_page = do
    products ← query (get_active_products tenant_id)
    let past = offset_of context + (max_list_rows - 1)
    let next_offset = if leb (length products) past then 0 else past
    move shop_list (record context { shop_offset = some next_offset })
    show_products next_offset

  unfoldable pub open_product : Product → Action (Unit {0})
  open_product p = do
    move product_detail (record context { product_id = some p.id })
    send_product_detail env phone p lang

  -- `_handle_shop_list`
  unfoldable pub handle_shop_list : Reply → Action (Unit {0})
  unfolding item_unavailable choose_again
  handle_shop_list reply = on_some (tapped reply) choose_again λ rid.
      if str_eq rid "shop_more"
      then next_page
      else on_some (parse_product_row_id rid) choose_again λ id. (do
        product ← query (λ d. by_id (λ n. get_product tenant_id n d) id)
        on_some product item_unavailable
            λ p. if p.is_active then open_product p else item_unavailable)

  unfoldable pub too_many : Product → Action (Unit {0})
  too_many p = do
    move product_detail context
    (if leb_ℤ p.stock_quantity (pos 0)
        then tell "out_of_stock"
        else send_text env phone
            (say "only_n_left" lang (("n", integer p.stock_quantity) ∷ []) ∷ []))
    send_product_detail env phone p lang

  unfoldable pub add : Product → ℕ → Action (Unit {0})
  add p quantity = do
    let new_cart = put_in p.id quantity (cart_of context)
    move post_add (record context { cart = some new_cart })
    send_add_to_cart_prompt env phone p.name new_cart tenant_id lang

  unfoldable pub add_to_cart : Product → Action (Unit {0})
  unfolding too_many add
  add_to_cart p =
      let requested = suc (quantity_in p.id (cart_of context)) in
      if ltb_ℤ p.stock_quantity (pos requested) then too_many p else add p requested

  show_again : ℕ → Action (Unit {0})
  show_again product_id = do
    move product_detail context
    tell "please_choose"
    product ← query (get_product tenant_id product_id)
    on_some product skip λ p. send_product_detail env phone p lang

  -- `_handle_product_detail`
  unfoldable pub handle_product_detail : Reply → Action (Unit {0})
  unfolding back_to_list item_unavailable show_again
  handle_product_detail reply =
      on_some context.product_id
        (do move idle (with_language lang); send_main_menu env phone "the store" lang)
        λ product_id. on_some (tapped reply) (show_again product_id) λ rid.
          if str_eq rid "back_to_products"
          then back_to_list
          else if str_eq rid "add_to_cart"
          then (do
            product ← query (get_product tenant_id product_id)
            on_some product item_unavailable
                λ p. if p.is_active then add_to_cart p else item_unavailable)
          else show_again product_id

  prompt_again : Action (Unit {0})
  prompt_again = do
    move post_add context
    tell "please_choose"
    send_cart_prompt env phone (cart_of context) tenant_id lang

  abbrev show_cart : Option String → Action (Unit {0})
  show_cart coupon_code = do send_cart env phone tenant_id (cart_of context) lang coupon_code; skip

  view_cart : Action (Unit {0})
  view_cart = do move cart context; show_cart context.coupon_code

  -- `_handle_post_add`
  unfoldable pub handle_post_add : Reply → Action (Unit {0})
  unfolding back_to_list prompt_again view_cart
  handle_post_add reply = on_some (tapped reply) prompt_again λ rid.
      if str_eq rid "view_cart"
      then view_cart
      else if str_eq rid "continue_shopping"
      then back_to_list
      else prompt_again

  cart_again : Action (Unit {0})
  cart_again = do move cart context; tell "please_choose"; show_cart context.coupon_code

  ask_coupon : Action (Unit {0})
  ask_coupon = do move apply_coupon context; tell "ask_coupon_code"

  -- `_handle_cart`
  unfoldable pub handle_cart : Reply → Action (Unit {0})
  unfolding back_to_list cart_again ask_coupon
  handle_cart reply = on_some (tapped reply) cart_again λ rid.
      if str_eq rid "continue_shopping"
      then back_to_list
      else if str_eq rid "apply_coupon"
      then ask_coupon
      else if str_eq rid "checkout"
      then start_checkout env phone tenant_id (cart_of context) lang context.coupon_code
      else cart_again

  refuse_coupon : String → CouponError → Action (Unit {0})
  refuse_coupon code e = do
    move cart context
    send_text env phone (say (error_key e) lang (("code", text code) ∷ []) ∷ [])
    show_cart context.coupon_code

  accept_coupon : String → Action (Unit {0})
  accept_coupon code = do
    move cart (record context { coupon_code = some code })
    show_cart (some code)

  -- `_handle_apply_coupon`
  unfoldable pub handle_apply_coupon : Reply → Action (Unit {0})
  unfolding ask_coupon refuse_coupon accept_coupon
  handle_apply_coupon reply =
      let code = typed reply in
      if not (truthy (some code)) then ask_coupon else (do
        coupon ← query (get_coupon_by_code env.clock tenant_id code)
        on_some (coupon_validity_error env.clock coupon)
            (on_some coupon skip λ c. accept_coupon c.code) (refuse_coupon code))

  -- `_handle_collect_name`
  unfoldable pub handle_collect_name : Reply → Action (Unit {0})
  handle_collect_name reply =
      let name = typed reply in
      if not (truthy (some name))
      then (do move collect_name context; tell "ask_customer_name")
      else (do
        call (set_customer_name tenant_id phone name env.clock.now)
        checkout env phone tenant_id (cart_of context) lang context.coupon_code)
