-- ===== src/Db/Checkout.antt =====
-- `checkout_cart` of db/repository.py: one transaction that takes the stock, prices the order,
-- applies a coupon and inserts the order with its items.
pub mod Stock
pub mod Placed
pub mod Atomic
use whatsapp_commerce_bot.Base.{
  ℕ, ◌-◌, ◌*◌, String, Bool, ◌&&◌, Option, none, some, List, [], ◌∷◌, truthy, is_empty, total_of,
  or_else, if◌then◌else◌,
}
use whatsapp_commerce_bot.Base.Int.{pos, leb_ℤ, ◌-ℤ◌}
use whatsapp_commerce_bot.Base.Table.{Table, select_one, update_where, insert_row}
use whatsapp_commerce_bot.Db.{
  Database, Product, Order, OrderItem, Coupon, pending_payment, Lang, Clock,
}
use whatsapp_commerce_bot.Db.Products.{is_product}
use whatsapp_commerce_bot.Db.Orders.{get_order, order_row, item_row}
use whatsapp_commerce_bot.Db.Coupons.{get_coupon_by_code, coupon_validity_error, compute_discount}

-- `{str(product_id): quantity}` in insertion order.
abbrev pub Cart : Type 0
Cart = List (ℕ × ℕ)

pub record LineItem : Type 0 where
  pub product_id : ℕ
  pub quantity : ℕ
  pub unit_price : ℕ

abbrev pub line_total : LineItem → ℕ
line_total i = i.unit_price * i.quantity

abbrev pub subtotal_of : List LineItem → ℕ
subtotal_of = total_of line_total

-- The WHERE clause of the conditional stock update, and what it sets.
abbrev pub sellable : ℕ → ℕ → ℕ → Product → Bool
sellable tenant_id product_id quantity p =
    is_product tenant_id product_id p && p.is_active && leb_ℤ (pos quantity) p.stock_quantity

abbrev pub sold : ℕ → Product → Product
sold quantity p = record p { stock_quantity = p.stock_quantity -ℤ pos quantity }

-- One `UPDATE … RETURNING price`.
unfoldable pub sell : ℕ → ℕ → ℕ → List Product → Option LineItem × List Product
sell tenant_id product_id quantity rows =
    let test = sellable tenant_id product_id quantity in
    elim (select_one test rows) [
      | none ↦ (none, rows)
      | some p ↦ (
        some (record { product_id = product_id; quantity = quantity; unit_price = p.price }),
        update_where test (sold quantity) rows,
      )
    ]

-- What the loop over the cart leaves: the entries dropped, the items, and the product rows.
pub record Taken : Type 0 where
  pub unavailable : List ℕ
  pub line_items : List LineItem
  pub rows : List Product

abbrev pub add_outcome : ℕ → Option LineItem → Taken → Taken
add_outcome product_id none t = record t { unavailable = product_id ∷ t.unavailable }
add_outcome product_id (some i) t = record t { line_items = i ∷ t.line_items }

unfoldable pub take_stock : ℕ → Cart → List Product → Taken
take_stock tenant_id [] rows = record { unavailable = []; line_items = []; rows = rows }
take_stock tenant_id ((product_id, quantity) ∷ cart) rows =
    let (outcome, rows') = sell tenant_id product_id quantity rows in
    add_outcome product_id outcome (take_stock tenant_id cart rows')

abbrev pub discounted : Clock → ℕ → Option Coupon → Option (String × ℕ)
discounted clock subtotal none = none
discounted clock subtotal (some c) = elim (coupon_validity_error clock (some c)) [
  | none ↦ some (c.code, compute_discount subtotal c.discount_type c.discount_value)
  | some e ↦ none
]

-- The coupon as it is at checkout: its code and discount, or nothing where it no longer applies.
unfoldable pub applied_coupon : Clock → ℕ → Option String → ℕ → Database → Option (String × ℕ)
applied_coupon clock tenant_id coupon_code subtotal d =
    if truthy coupon_code
    then discounted clock subtotal (get_coupon_by_code clock tenant_id (or_else coupon_code "") d)
    else none

abbrev pub code_of : Option (String × ℕ) → Option String
code_of none = none
code_of (some (c, a)) = some c

abbrev pub amount_of : Option (String × ℕ) → Option ℕ
amount_of none = none
amount_of (some (c, a)) = some a

unfoldable pub insert_items : ℕ → ℕ → List LineItem → Table OrderItem → Table OrderItem
insert_items tenant_id order_id [] t = t
insert_items tenant_id order_id (i ∷ is) t =
    insert_items tenant_id order_id is
      (insert_row (item_row tenant_id order_id i.product_id i.quantity i.unit_price) t)

-- The rest of the transaction, once the stock is taken.
unfoldable pub place_order :
    Clock → ℕ → String → Lang → Option String → List LineItem → Database → Option Order × Database
place_order clock tenant_id customer_phone language coupon_code line_items d =
    let subtotal = subtotal_of line_items in
    let applied = applied_coupon clock tenant_id coupon_code subtotal d in
    let total = subtotal - or_else (amount_of applied) 0 in
    let order_id = d.orders.next_id in
    let row =
      order_row tenant_id customer_phone pending_payment (some subtotal) (some total) language
        clock.now (code_of applied) (amount_of applied) in
    let d' = record d {
      orders = insert_row row d.orders;
      order_items = insert_items tenant_id order_id line_items d.order_items;
    } in
    (get_order tenant_id order_id d', d')

unfoldable pub checkout_cart :
    Clock → ℕ → String → Cart → Lang → Option String → Database → Option Order × List ℕ × Database
checkout_cart clock tenant_id customer_phone cart language coupon_code d =
    let taken = take_stock tenant_id cart d.products.rows in
    let d₁ = record d { products = record d.products { rows = taken.rows } } in
    let (order, d₂) =
      place_order clock tenant_id customer_phone language coupon_code taken.line_items d₁ in
    if is_empty taken.line_items
    then (none, taken.unavailable, d₁)
    else (order, taken.unavailable, d₂)
