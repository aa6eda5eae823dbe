-- ===== src/Portal/Orders.antt =====
-- portal/orders.py: the merchant's orders, an order's page, and the click that marks one fulfilled.
use Prim.Native.String.{◌++◌ as str_append}
use whatsapp_commerce_bot.Base.{ℕ, ◌*◌, String, Option, none, some, map, if◌then◌else◌}
use whatsapp_commerce_bot.Base.Int.{ℤ}
use whatsapp_commerce_bot.Base.Numeral.{decimal}
use whatsapp_commerce_bot.Db.{Database, Tenant, Order, OrderItem, Customer, Status, paid, status_eq}
use whatsapp_commerce_bot.Db.Orders.{get_order, get_order_items, list_orders, mark_order_fulfilled}
use whatsapp_commerce_bot.Db.Customers.{get_customer, get_customer_names}
use whatsapp_commerce_bot.Flow.Rows.{product_name}
use whatsapp_commerce_bot.Flow.Webhooks.{handle_order_fulfilled}
use whatsapp_commerce_bot.World.{Env, Action, pure, query, call, ◌>>=◌, ◌>>◌, on_some, skip}
use whatsapp_commerce_bot.Portal.{
  Answer, redirect, page, not_found, OrderLine, order_table, order_page,
}
use whatsapp_commerce_bot.Portal.Guard.{Host, signed_in, at_id}

unfoldable pub order_line : ℕ → Database → OrderItem → OrderLine
order_line tenant_id d item = record {
  product_name = product_name tenant_id item.product_id d;
  quantity = item.quantity;
  unit_price = item.unit_price_at_order_time;
  line_total = item.unit_price_at_order_time * item.quantity;
}

abbrev name_of : Option Customer → Option String
name_of none = none
name_of (some c) = some c.name

-- An order of the tenant, or 404.
unfoldable pub with_order : Tenant → ℤ → (ℕ → Order → Action Answer) → Action Answer
with_order t order_id route =
    at_id order_id
      λ i. (do order ← query (get_order t.id i); on_some order (pure not_found) (route i))

-- `order_fulfill`: the customer is told when the order was paid until then.
unfoldable pub fulfil : Env → Tenant → ℕ → Order → Action Answer
fulfil env t i o = do
  transitioned ← call (mark_order_fulfilled t.id i)
  (if transitioned then handle_order_fulfilled env o else skip)
  pure (redirect (str_append "/portal/orders/" (decimal i)))

module _ (host : Host) (env : Env) (cookie : Option String) where
  -- The filter is a status, or none for all; a text that is no status finds nothing.
  unfoldable pub orders_list : Option Status → Action Answer
  orders_list status = signed_in host env cookie λ t. (do
    orders ← query (list_orders t.id status none)
    names ← query (get_customer_names t.id (map (λ o. o.customer_phone) orders))
    pure (page (order_table orders names)))

  unfoldable pub order_detail : ℤ → Action Answer
  order_detail order_id = signed_in host env cookie λ t. with_order t order_id λ i o. (do
    items ← query (get_order_items t.id i)
    lines ← query (λ d. map (order_line t.id d) items)
    customer ← query (get_customer t.id o.customer_phone)
    pure (page (order_page o lines (name_of customer) (status_eq o.status paid))))

  unfoldable pub order_fulfill : ℤ → Action Answer
  order_fulfill order_id = signed_in host env cookie λ t. with_order t order_id (fulfil env t)
