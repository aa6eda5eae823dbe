-- ===== src/Db/Orders.antt =====
-- db/repository.py, orders and order items: the reads, the inserts, and the conditional updates by
-- which an order moves between its states.
pub mod States
pub mod Repeats
use whatsapp_commerce_bot.Base.{
  ℕ, ◌+◌, ◌*◌, String, Bool, ◌&&◌, not, Option, none, some, List, ◌==◌, leb, str_eq, coalesce,
  is_some, take, select, order_by_desc, order_by_asc,
}
use whatsapp_commerce_bot.Base.Table.{select_one, any_row, update_table, insert_row}
use whatsapp_commerce_bot.Db.{
  Database, Order, OrderItem, Status, pending_payment, paid, failed, fulfilled, status_eq, Lang,
}

abbrev pub is_order : ℕ → ℕ → Order → Bool
is_order tenant_id order_id o = (o.tenant_id == tenant_id) && (o.id == order_id)

unfoldable pub get_order : ℕ → ℕ → Database → Option Order
get_order tenant_id order_id d = select_one (is_order tenant_id order_id) d.orders.rows

unfoldable pub get_orders_for_phone : ℕ → String → Database → List Order
get_orders_for_phone tenant_id customer_phone d =
    order_by_desc (λ o. o.created_at)
      (select (λ o. (o.tenant_id == tenant_id) && str_eq o.customer_phone customer_phone)
        d.orders.rows)

abbrev has_status : Option Status → Order → Bool
has_status none o = Bool.true
has_status (some s) o = status_eq o.status s

abbrev capped : Option ℕ → List Order → List Order
capped none os = os
capped (some n) os = take n os

unfoldable pub list_orders : ℕ → Option Status → Option ℕ → Database → List Order
list_orders tenant_id status limit d = capped limit (
    order_by_desc (λ o. o.created_at)
      (select (λ o. (o.tenant_id == tenant_id) && has_status status o) d.orders.rows))

-- The columns that an INSERT leaves out are NULL; `created_at` is `now()`.
unfoldable pub order_row :
    ℕ
    → String
    → Status
    → (subtotal total : Option ℕ) → Lang
    → ℕ
    → (coupon_code : Option String) → (discount_amount : Option ℕ) → ℕ
    → Order
order_row tenant_id customer_phone status subtotal total language now coupon discount id = record {
  id = id;
  tenant_id = tenant_id;
  customer_phone = customer_phone;
  status = status;
  payment_link_url = none;
  payment_gateway_reference = none;
  subtotal = subtotal;
  total = total;
  created_at = now;
  paid_at = none;
  nudge_sent_at = none;
  payment_method = none;
  language = language;
  coupon_code = coupon;
  discount_amount = discount;
}

unfoldable pub create_order :
    ℕ
    → String
    → Status
    → (subtotal total : Option ℕ) → Lang
    → ℕ
    → Database
    → Option Order × Database
create_order tenant_id customer_phone status subtotal total language now d =
    let d' = record d {
      orders =
          insert_row
            (order_row tenant_id customer_phone status subtotal total language now none none)
            d.orders;
    } in
    (get_order tenant_id d.orders.next_id d', d')

unfoldable pub update_order_status :
    ℕ
    → ℕ
    → Status
    → (payment_link_url payment_gateway_reference : Option String) → Option ℕ
    → Database
    → Database
update_order_status tenant_id order_id status url reference paid_at d = record d {
  orders =
      update_table (is_order tenant_id order_id)
        (λ o. record o {
          status = status;
          payment_link_url = coalesce url o.payment_link_url;
          payment_gateway_reference = coalesce reference o.payment_gateway_reference;
          paid_at = coalesce paid_at o.paid_at;
        })
        d.orders;
}

unfoldable pub get_order_item : ℕ → ℕ → Database → Option OrderItem
get_order_item tenant_id order_item_id d =
    select_one (λ i. (i.tenant_id == tenant_id) && (i.id == order_item_id)) d.order_items.rows

abbrev pub is_item_of : ℕ → ℕ → OrderItem → Bool
is_item_of tenant_id order_id i = (i.tenant_id == tenant_id) && (i.order_id == order_id)

unfoldable pub get_order_items : ℕ → ℕ → Database → List OrderItem
get_order_items tenant_id order_id d = select (is_item_of tenant_id order_id) d.order_items.rows

abbrev pub item_row : ℕ → ℕ → ℕ → ℕ → ℕ → ℕ → OrderItem
item_row tenant_id order_id product_id quantity unit_price id = record {
  id = id;
  tenant_id = tenant_id;
  order_id = order_id;
  product_id = product_id;
  quantity = quantity;
  unit_price_at_order_time = unit_price;
}

unfoldable pub create_order_item : ℕ → ℕ → ℕ → ℕ → ℕ → Database → Option OrderItem × Database
create_order_item tenant_id order_id product_id quantity unit_price d =
    let row = item_row tenant_id order_id product_id quantity unit_price in
    let d' = record d { order_items = insert_row row d.order_items } in
    (get_order_item tenant_id d.order_items.next_id d', d')

unfoldable pub update_order_payment_link : ℕ → ℕ → String → Option String → Database → Database
update_order_payment_link tenant_id order_id url reference d = record d {
  orders =
      update_table (is_order tenant_id order_id)
        (λ o. record o {
          payment_link_url = some url;
          payment_gateway_reference = coalesce reference o.payment_gateway_reference;
        })
        d.orders;
}

-- The WHERE clauses of the three conditional transitions, and the rows that they write.
abbrev pub payable : ℕ → ℕ → Order → Bool
payable tenant_id order_id o = is_order tenant_id order_id o && not (status_eq o.status paid)

abbrev pub paid_row : Option String → ℕ → Option String → Order → Order
paid_row reference paid_at method o = record o {
  status = paid;
  payment_gateway_reference = coalesce reference o.payment_gateway_reference;
  payment_method = coalesce method o.payment_method;
  paid_at = some paid_at;
}

-- `paid_at` and the method stand in the order of the signature; the result is `rowcount > 0`.
unfoldable pub mark_order_paid :
    ℕ → ℕ → Option String → ℕ → Option String → Database → Bool × Database
mark_order_paid tenant_id order_id reference paid_at method d = (
  any_row (payable tenant_id order_id) d.orders.rows,
  record d {
    orders = update_table (payable tenant_id order_id) (paid_row reference paid_at method) d.orders;
  },
)

abbrev pub failable : ℕ → ℕ → Order → Bool
failable tenant_id order_id o =
    is_order tenant_id order_id o
    && not (status_eq o.status paid)
    && not (status_eq o.status failed)

unfoldable pub mark_order_failed : ℕ → ℕ → Database → Bool × Database
mark_order_failed tenant_id order_id d = (
  any_row (failable tenant_id order_id) d.orders.rows,
  record d {
    orders =
        update_table (failable tenant_id order_id) (λ o. record o { status = failed }) d.orders;
  },
)

abbrev pub fulfillable : ℕ → ℕ → Order → Bool
fulfillable tenant_id order_id o = is_order tenant_id order_id o && status_eq o.status paid

unfoldable pub mark_order_fulfilled : ℕ → ℕ → Database → Bool × Database
mark_order_fulfilled tenant_id order_id d = (
  any_row (fulfillable tenant_id order_id) d.orders.rows,
  record d {
    orders =
        update_table (fulfillable tenant_id order_id) (λ o. record o { status = fulfilled })
          d.orders;
  },
)

-- `created_at <= now() - hours`, with both sides moved up by the hours.
abbrev pub is_abandoned : ℕ → ℕ → ℕ → Order → Bool
is_abandoned tenant_id older_than_hours now o =
    (o.tenant_id == tenant_id)
    && status_eq o.status pending_payment
    && not (is_some o.nudge_sent_at)
    && leb (o.created_at + older_than_hours * 3600) now

unfoldable pub get_abandoned_orders : ℕ → ℕ → ℕ → Database → List Order
get_abandoned_orders tenant_id older_than_hours now d =
    order_by_asc (λ o. o.created_at)
      (select (is_abandoned tenant_id older_than_hours now) d.orders.rows)

abbrev pub unnudged : ℕ → ℕ → Order → Bool
unnudged tenant_id order_id o = is_order tenant_id order_id o && not (is_some o.nudge_sent_at)

unfoldable pub mark_nudge_sent : ℕ → ℕ → ℕ → Database → Bool × Database
mark_nudge_sent tenant_id order_id now d = (
  any_row (unnudged tenant_id order_id) d.orders.rows,
  record d {
    orders =
        update_table (unnudged tenant_id order_id) (λ o. record o { nudge_sent_at = some now })
          d.orders;
  },
)
