-- ===== src/Db/Checkout/Placed.antt =====
-- The order that `checkout_cart` returns: what it holds, its items, and what else it changes.
use whatsapp_commerce_bot.Base.{
  ℕ, ◌-◌, ◌≤◌, ◌≡◌, refl, sym, ◌∙◌, ap, String, Bool, true, false, Option, none, some, List, [],
  ◌∷◌, ◌++◌, map, arith, if◌then◌else◌, All, or_else, select, select-append, select-none, truthy,
}
use mathlib.Core.List.{append-nil, append_assoc, map-append}
use whatsapp_commerce_bot.Base.Table.{
  Table, IsBelow, insert_row, select_one-append, select_one-none, select_one-singleton,
}
use whatsapp_commerce_bot.Db.{Database, Order, OrderItem, Coupon, pending_payment, Lang, Clock}
use whatsapp_commerce_bot.Db.Orders.{
  get_order, is_order, order_row, item_row, get_order_items, is_item_of,
}
use whatsapp_commerce_bot.Db.Coupons.{
  get_coupon_by_code, CouponError, compute_discount, coupon_validity_error,
}
use whatsapp_commerce_bot.Db.Coupons.Discount.{compute_discount-le}
use whatsapp_commerce_bot.Db.Checkout.{
  LineItem, subtotal_of, applied_coupon, discounted, code_of, amount_of, insert_items, place_order,
}

-- The ids that the sequences have still to give are not in use.
pub record IsFresh (d : Database) : Type 0 where
  pub orders : IsBelow (λ (o : Order). o.id) d.orders.next_id d.orders.rows
  pub items : IsBelow (λ (i : OrderItem). i.order_id) d.orders.next_id d.order_items.rows

-- A discount that checkout applies is at most the subtotal.
applied_coupon-le :
    (clock : Clock) (t : ℕ) (code : Option String) (subtotal : ℕ) (d : Database)
    → or_else (amount_of (applied_coupon clock t code subtotal d)) 0 ≤ subtotal
unfolding applied_coupon
applied_coupon-le clock t code subtotal d =
    go (truthy code) (get_coupon_by_code clock t (or_else code "") d)
  where
    valid :
        (c : Coupon) (e : Option CouponError)
        → or_else
            (amount_of (elim e [
              | none ↦ some (c.code, compute_discount subtotal c.discount_type c.discount_value)
              | some x ↦ none
            ]))
            0
          ≤ subtotal
    valid c none = compute_discount-le subtotal c.discount_type c.discount_value
    valid c (some x) = omega arith

    go :
        (b : Bool) (c : Option Coupon)
        → or_else (amount_of (if b then discounted clock subtotal c else none)) 0 ≤ subtotal
    go false c = omega arith
    go true none = omega arith
    go true (some c) = valid c (coupon_validity_error clock (some c))

-- The order just inserted is the one that its id finds.
get_order-insert :
    (t : ℕ) (row : ℕ → Order) (d : Database) (items : Table OrderItem)
    → IsFresh d
    → ((id : ℕ) → is_order t id (row id) ≡ true)
    → get_order t d.orders.next_id
        (record d { orders = insert_row row d.orders; order_items = items })
      ≡ some (row d.orders.next_id)
unfolding get_order
get_order-insert t row d items fresh found =
    select_one-append (is_order t n) d.orders.rows (row n ∷ [])
    ∙ rw (select_one-none (is_order t n) d.orders.rows (unused d.orders.rows fresh.orders))
        (select_one-singleton (is_order t n) (row n) (found n))
  where
    n : ℕ
    n = d.orders.next_id

    unused :
        (rs : List Order)
        → IsBelow (λ (o : Order). o.id) n rs
        → All (λ o. is_order t n o ≡ false) rs
    unused [] h = tt
    unused (r ∷ rs) h = (ground arith, unused rs h.1)

-- What an item row says of its product.
abbrev pub line_of : OrderItem → LineItem
line_of i = record {
  product_id = i.product_id;
  quantity = i.quantity;
  unit_price = i.unit_price_at_order_time;
}

-- The rows of an order are its earlier ones and the items just inserted, in their order.
insert_items-lines :
    (t order_id : ℕ) (items : List LineItem) (table : Table OrderItem)
    → map line_of (select (is_item_of t order_id) (insert_items t order_id items table).rows)
      ≡ map line_of (select (is_item_of t order_id) table.rows) ++ items
unfolding insert_items
insert_items-lines t n [] table =
    sym (append-nil (map line_of (select (is_item_of t n) table.rows)))
insert_items-lines t n (i ∷ is) table =
    insert_items-lines t n is (insert_row new table)
    ∙ ap (λ ls. ls ++ is)
        (ap (map line_of) (select-append (is_item_of t n) table.rows (new table.next_id ∷ []))
          ∙ map-append line_of (select (is_item_of t n) table.rows)
              (select (is_item_of t n) (new table.next_id ∷ []))
          ∙ ap (λ ls. map line_of (select (is_item_of t n) table.rows) ++ map line_of ls) chosen)
    ∙ append_assoc (map line_of (select (is_item_of t n) table.rows)) (i ∷ []) is
  where
    new : ℕ → OrderItem
    new = item_row t n i.product_id i.quantity i.unit_price

    chosen : select (is_item_of t n) (new table.next_id ∷ []) ≡ new table.next_id ∷ []
    chosen = ground arith

-- What the order of a successful checkout holds.
pub record IsPlaced (tenant_id : ℕ) (phone : String) (language : Lang) (items : List LineItem)
    (d : Database) (o : Order) : Type 0 where
  pub tenant : o.tenant_id ≡ tenant_id
  pub customer : o.customer_phone ≡ phone
  pub spoken : o.language ≡ language
  pub unpaid : o.status ≡ pending_payment
  pub subtotal : o.subtotal ≡ some (subtotal_of items)
  pub discount : or_else o.discount_amount 0 ≤ subtotal_of items
  pub total : o.total ≡ some (subtotal_of items - or_else o.discount_amount 0)
  pub lines : map line_of (get_order_items tenant_id o.id d) ≡ items

-- The order that `place_order` returns.
pub place_order-IsPlaced :
    (clock : Clock) (t : ℕ) (phone : String) (language : Lang) (code : Option String)
    (items : List LineItem) (d : Database)
    → IsFresh d
    → let (order, d') = place_order clock t phone language code items d in
      (o : Order) × (order ≡ some o) × IsPlaced t phone language items d' o
unfolding place_order order_row get_order_items
place_order-IsPlaced clock t phone language code items d fresh = (
  row d.orders.next_id,
  get_order-insert t row d (insert_items t d.orders.next_id items d.order_items) fresh
      (λ id. ground arith),
  record {
    tenant = refl;
    customer = refl;
    spoken = refl;
    unpaid = refl;
    subtotal = refl;
    discount = applied_coupon-le clock t code (subtotal_of items) d;
    total = refl;
    lines =
        insert_items-lines t d.orders.next_id items d.order_items
        ∙ ap (λ ls. map line_of ls ++ items)
            (select-none (is_item_of t d.orders.next_id) d.order_items.rows
              (none_yet d.order_items.rows fresh.items));
  },
)
  where
    applied : Option (String × ℕ)
    applied = applied_coupon clock t code (subtotal_of items) d

    row : ℕ → Order
    row =
        order_row t phone pending_payment (some (subtotal_of items))
          (some (subtotal_of items - or_else (amount_of applied) 0)) language clock.now
          (code_of applied) (amount_of applied)

    none_yet :
        (rs : List OrderItem)
        → IsBelow (λ (i : OrderItem). i.order_id) d.orders.next_id rs
        → All (λ i. is_item_of t d.orders.next_id i ≡ false) rs
    none_yet [] h = tt
    none_yet (r ∷ rs) h = (ground arith, none_yet rs h.1)
