-- ===== src/Flow/Prompts.antt =====
-- The message builders of core/commerce_flow.py other than the product pages.
use whatsapp_commerce_bot.Base.{
  ℕ, ◌-◌, ◌*◌, String, Bool, true, false, Option, none, some, List, [], ◌∷◌, ◌++◌, map, is_empty,
  truthy, or_else, total_of, ◌==◌, if◌then◌else◌,
}
use whatsapp_commerce_bot.Db.{
  Database, Product, Order, OrderItem, Coupon, DiscountType, percentage, flat, Lang,
}
use whatsapp_commerce_bot.Db.Products.{get_product}
use whatsapp_commerce_bot.Db.Orders.{get_orders_for_phone, get_order_items}
use whatsapp_commerce_bot.Db.Coupons.{
  get_coupon_by_code, coupon_validity_error, compute_discount, list_active_coupons,
}
use whatsapp_commerce_bot.Db.Checkout.{Cart}
use whatsapp_commerce_bot.Message.{
  text, number, money, percent, moment, status_of, Part, say, raw, amount, line, label, newline,
  Button, Row, Message,
}
use whatsapp_commerce_bot.World.{Env, Action, pure, query, ◌>>=◌, ◌>>◌, skip, send}
use whatsapp_commerce_bot.Flow.Rows.{cap_rows, order_row_id, product_name, cart_subtotal}

abbrev pub button : String → Lang → String → Button
button id lang key = record { id = id; title = say key lang [] }

abbrev pub phrase : Lang → String → List Part
phrase lang key = say key lang [] ∷ []

abbrev blank_line : List Part
blank_line = newline ∷ newline ∷ []

-- The two LANGUAGE_NAMES.
abbrev language_buttons : List Button
language_buttons =
    record { id = "lang_en"; title = raw "English" }
    ∷ record { id = "lang_hi"; title = raw "हिन्दी" }
    ∷ []

abbrev menu_row : Lang → String → String → Row
menu_row lang id key = record { id = id; title = say key lang []; description = [] }

-- `_cart_count_summary`
unfoldable pub cart_count_summary : Cart → ℕ → Lang → Database → Part
cart_count_summary cart tenant_id lang d =
    let total_qty = total_of (λ (e : ℕ × ℕ). e.1) cart in
    say "cart_count_summary" lang (
      ("count", number total_qty)
      ∷ ("unit", text (if total_qty == 1 then "item" else "items"))
      ∷ ("amount", money (cart_subtotal tenant_id cart d))
      ∷ [])

abbrev cart_buttons : Lang → List Button
cart_buttons lang =
    button "view_cart" lang "view_cart_button"
    ∷ button "continue_shopping" lang "continue_shopping_button"
    ∷ []

-- The lines of `_send_cart`: an entry whose product is gone has none.
unfoldable pub cart_lines : ℕ → Cart → Database → List Part
cart_lines tenant_id [] d = []
cart_lines tenant_id ((product_id, qty) ∷ cart) d =
    let rest = cart_lines tenant_id cart d in
    elim (get_product tenant_id product_id d) [
      | none ↦ rest
      | some p ↦ line qty p.name (p.price * qty) ∷ newline ∷ rest
    ]

abbrev pub preview : Lang → ℕ → Coupon → List Part
preview lang subtotal c =
    let discount = compute_discount subtotal c.discount_type c.discount_value in
    newline
    ∷ say "coupon_discount_label" lang (("code", text c.code) ∷ ("amount", money discount) ∷ [])
    ∷ newline
    ∷ say "order_total_label" lang (("amount", money (subtotal - discount)) ∷ [])
    ∷ []

-- What `_send_cart` adds to the body for a coupon that is valid now.
unfoldable pub coupon_preview : Env → ℕ → Lang → ℕ → Option String → Database → List Part
coupon_preview env tenant_id lang subtotal coupon_code d =
    if truthy coupon_code
    then elim (get_coupon_by_code env.clock tenant_id (or_else coupon_code "") d) [
      | none ↦ []
      | some c ↦ elim (coupon_validity_error env.clock (some c)) [
        | none ↦ preview lang subtotal c
        | some e ↦ []
      ]
    ]
    else []

unfoldable pub offer_line : Lang → Coupon → DiscountType → Part
offer_line lang c percentage =
    say "offers_percentage_line" lang
      (("code", text c.code) ∷ ("value", percent c.discount_value) ∷ [])
offer_line lang c flat =
    say "offers_flat_line" lang (("code", text c.code) ∷ ("value", money c.discount_value) ∷ [])

-- `"\n".join(lines)`
unfoldable pub join_lines : List Part → List Part
join_lines [] = []
join_lines (p ∷ []) = p ∷ []
join_lines (p ∷ q ∷ ps) = p ∷ newline ∷ join_lines (q ∷ ps)

abbrev pub order_row : Lang → Order → Row
order_row lang o = record {
  id = order_row_id o.id;
  title = say "order_number" lang (("id", number o.id) ∷ []);
  description = label o.status lang ∷ raw " — " ∷ amount (or_else o.total 0) ∷ [];
}

abbrev pub item_line : ℕ → Database → OrderItem → List Part
item_line tenant_id d i =
    line i.quantity (product_name tenant_id i.product_id d)
      (i.unit_price_at_order_time * i.quantity)
    ∷ newline
    ∷ []

-- `"\n".join(lines)` over an order's items, and a line break.
unfoldable pub item_lines : ℕ → Database → List OrderItem → List Part
item_lines tenant_id d [] = newline ∷ []
item_lines tenant_id d (i ∷ []) = item_line tenant_id d i
item_lines tenant_id d (i ∷ j ∷ is) = item_line tenant_id d i ++ item_lines tenant_id d (j ∷ is)

-- The body of `_send_cart`.
unfoldable pub cart_text : Lang → List Part → ℕ → List Part → List Part
cart_text lang lines subtotal coupon =
    (say "your_cart_header" lang [] ∷ newline ∷ newline ∷ lines)
    ++ newline ∷ say "subtotal_label" lang (("amount", money subtotal) ∷ []) ∷ coupon

-- The body of `_send_order_detail`.
unfoldable pub order_text : Lang → Order → List Part → List Part
order_text lang o lines =
    (say "order_number" lang (("id", number o.id) ∷ [])
      ∷ newline
      ∷ say "order_status_label" lang (("status", status_of o.status) ∷ [])
      ∷ newline
      ∷ say "order_placed_label" lang (("date", moment o.created_at) ∷ [])
      ∷ newline
      ∷ newline
      ∷ lines)
    ++ newline ∷ say "order_total_label" lang (("amount", money (or_else o.total 0)) ∷ []) ∷ []

module _ (env : Env) (phone : String) where
  unfoldable pub send_text : List Part → Action (Unit {0})
  send_text parts = do send env phone (Message.text parts); skip

  unfoldable pub send_buttons : List Part → Option String → List Button → Action (Unit {0})
  send_buttons body image bs = do send env phone (Message.buttons body image bs); skip

  -- `_send_language_prompt`
  unfoldable pub send_language_prompt : Action (Unit {0})
  send_language_prompt =
      send_buttons (raw "Please select your language / कृपया अपनी भाषा चुनें" ∷ []) none
        language_buttons

  -- `_send_main_menu`
  unfoldable pub send_main_menu : String → Lang → Action (Unit {0})
  send_main_menu tenant_name lang = do
    send env phone (
        Message.list (say "welcome" lang (("tenant_name", text tenant_name) ∷ []))
          (say "main_menu_button" lang [])
          (record {
            title = say "main_menu_button" lang [];
            rows =
                menu_row lang "menu_shop" "menu_shop_now"
                ∷ menu_row lang "menu_my_orders" "menu_my_orders"
                ∷ menu_row lang "menu_track_order" "menu_track_order"
                ∷ menu_row lang "menu_offers" "menu_offers"
                ∷ menu_row lang "menu_account" "menu_account"
                ∷ menu_row lang "menu_talk_to_us" "menu_talk_to_us"
                ∷ [];
          }
            ∷ []))
    skip

  -- `_send_product_detail`
  unfoldable pub send_product_detail : Product → Lang → Action (Unit {0})
  send_product_detail p lang =
      send_buttons
        (raw p.name
          ∷ newline
          ∷ amount p.price
          ∷ (if truthy p.description
              then blank_line ++ raw (or_else p.description "") ∷ []
              else []))
        (if truthy p.image_url then p.image_url else none)
        (button "add_to_cart" lang "add_to_cart_button"
          ∷ button "back_to_products" lang "back_to_products_button"
          ∷ [])

  -- `_send_add_to_cart_prompt`
  unfoldable pub send_add_to_cart_prompt : String → Cart → ℕ → Lang → Action (Unit {0})
  send_add_to_cart_prompt product_name cart tenant_id lang = do
    summary ← query (cart_count_summary cart tenant_id lang)
    send_buttons
        (say "added_to_cart" lang (("product_name", text product_name) ∷ [])
          ∷ newline
          ∷ newline
          ∷ summary
          ∷ [])
        none (cart_buttons lang)

  -- The prompt that `_handle_post_add` sends again.
  unfoldable pub send_cart_prompt : Cart → ℕ → Lang → Action (Unit {0})
  send_cart_prompt cart tenant_id lang = do
    summary ← query (cart_count_summary cart tenant_id lang)
    send_buttons (summary ∷ []) none (cart_buttons lang)

  -- `_send_cart`
  unfoldable pub send_cart : ℕ → Cart → Lang → Option String → Action Bool
  send_cart tenant_id cart lang coupon_code = do
    lines ← query (cart_lines tenant_id cart)
    subtotal ← query (cart_subtotal tenant_id cart)
    coupon ← query (coupon_preview env tenant_id lang subtotal coupon_code)
    if is_empty lines then (do send_text (phrase lang "cart_empty"); pure false) else (do
      send_buttons (cart_text lang lines subtotal coupon) none (
          button "checkout" lang "checkout_button"
          ∷ button "apply_coupon" lang "apply_coupon_button"
          ∷ button "continue_shopping" lang "continue_shopping_button"
          ∷ [])
      pure true)

  -- `_send_offers`
  unfoldable pub send_offers : ℕ → Lang → Action (Unit {0})
  send_offers tenant_id lang = do
    coupons ← query (list_active_coupons env.clock tenant_id)
    if is_empty coupons
        then send_text (phrase lang "no_offers_available")
        else send_text (
            say "offers_list_header" lang []
            ∷ newline
            ∷ newline
            ∷ join_lines (map (λ c. offer_line lang c c.discount_type) coupons))

  -- `_send_orders_list`
  unfoldable pub send_orders_list : ℕ → String → Lang → Action Bool
  send_orders_list tenant_id customer_phone lang = do
    orders ← query (get_orders_for_phone tenant_id customer_phone)
    if is_empty orders then pure false else (do
      send env phone (
          Message.list (say "your_recent_orders" lang []) (say "view_orders_button" lang []) (
            record {
              title = say "orders_section_title" lang [];
              rows = cap_rows (map (order_row lang) orders) none;
            }
            ∷ []))
      pure true)

  -- `_send_order_detail`
  unfoldable pub send_order_detail : ℕ → Order → Lang → Action (Unit {0})
  send_order_detail tenant_id o lang = do
    items ← query (get_order_items tenant_id o.id)
    lines ← query (λ d. item_lines tenant_id d items)
    send_buttons (order_text lang o lines) none (button "main_menu" lang "main_menu_button" ∷ [])
