-- ===== src/Db/Isolation.antt =====
-- What the repository's writes for one tenant leave of the rows of another.
pub mod Shop
use whatsapp_commerce_bot.Base.{
  ℕ, ◌≡◌, refl, ap, ◌∙◌, ◌≢◌, String, Bool, true, false, Option, none, some, List, [], ◌∷◌, ◌++◌,
  arith, ◌==◌, select, is_empty, if◌then◌else◌,
}
use whatsapp_commerce_bot.Base.Table.{Table, update_where, insert_row}
use whatsapp_commerce_bot.Db.{
  Database, Tenant, Product, Order, OrderItem, Customer, Coupon, Lang, Clock,
}
use whatsapp_commerce_bot.Db.Customers.{is_customer, set_customer_name}
use whatsapp_commerce_bot.Db.Orders.{
  payable, failable, mark_order_paid, mark_order_failed, is_order, update_order_payment_link,
  order_row, item_row,
}
use whatsapp_commerce_bot.Db.Checkout.{
  Cart, LineItem, Taken, sellable, sold, sell, add_outcome, take_stock, insert_items, place_order,
  checkout_cart,
}

module _ {A : Type 0} where
  pub select-update_where_other :
      (q p : A → Bool) (f : A → A)
      → ((r : A) → p r ≡ true → (q r ≡ false) × (q (f r) ≡ false))
      → (rs : List A) → select q (update_where p f rs) ≡ select q rs
  unfolding update_where
  select-update_where_other q p f apart [] = refl
  select-update_where_other q p f apart (r ∷ rs) =
      ground (arith, apart r, select-update_where_other q p f apart rs)

  pub select-append_other :
      (q : A → Bool) (x : A) → q x ≡ false → (rs : List A) → select q (rs ++ x ∷ []) ≡ select q rs
  select-append_other q x foreign [] = ground arith
  select-append_other q x foreign (r ∷ rs) = ground (arith, select-append_other q x foreign rs)

-- The rows of one tenant, in every table that a customer's message can reach.
pub record Holdings : Type 0 where
  pub products : List Product
  pub orders : List Order
  pub order_items : List OrderItem
  pub customers : List Customer
  pub coupons : List Coupon
  pub tenants : List Tenant

unfoldable pub holdings : ℕ → Database → Holdings
holdings u d = record {
  products = select (λ r. r.tenant_id == u) d.products.rows;
  orders = select (λ r. r.tenant_id == u) d.orders.rows;
  order_items = select (λ r. r.tenant_id == u) d.order_items.rows;
  customers = select (λ r. r.tenant_id == u) d.customers;
  coupons = select (λ r. r.tenant_id == u) d.coupons.rows;
  tenants = d.tenants.rows;
}

module _ (t u : ℕ) (apart : t ≢ u) where
  sell-other :
      (i q : ℕ) (rows : List Product)
      → select (λ p. p.tenant_id == u) (sell t i q rows).1 ≡ select (λ p. p.tenant_id == u) rows
  unfolding sell
  sell-other i q rows = ground (
    arith,
    select-update_where_other (λ p. p.tenant_id == u) (sellable t i q) (sold q)
        (λ p h. ground arith) rows,
  )

  add_outcome_rows :
      (i : ℕ) (o : Option LineItem) (taken : Taken) → (add_outcome i o taken).rows ≡ taken.rows
  add_outcome_rows i none taken = refl
  add_outcome_rows i (some item) taken = refl

  take_stock-other :
      (cart : Cart) (rows : List Product)
      → select (λ p. p.tenant_id == u) (take_stock t cart rows).rows
        ≡ select (λ p. p.tenant_id == u) rows
  unfolding take_stock
  take_stock-other [] rows = refl
  take_stock-other ((i, q) ∷ cart) rows =
      let (outcome, left) = sell t i q rows in
      ap (select (λ p. p.tenant_id == u)) (add_outcome_rows i outcome (take_stock t cart left))
      ∙ take_stock-other cart left
      ∙ sell-other i q rows

  insert_items-other :
      (order_id : ℕ) (items : List LineItem) (table : Table OrderItem)
      → select (λ i. i.tenant_id == u) (insert_items t order_id items table).rows
        ≡ select (λ i. i.tenant_id == u) table.rows
  unfolding insert_items
  insert_items-other order_id [] table = refl
  insert_items-other order_id (i ∷ is) table =
      insert_items-other order_id is (insert_row row table)
      ∙ select-append_other (λ i. i.tenant_id == u) (row table.next_id) (ground arith) table.rows
    where
      row : ℕ → OrderItem
      row = item_row t order_id i.product_id i.quantity i.unit_price

  same_holdings :
      (d d' : Database)
      → select (λ r. r.tenant_id == u) d'.products.rows
        ≡ select (λ r. r.tenant_id == u) d.products.rows
      → select (λ r. r.tenant_id == u) d'.orders.rows ≡ select (λ r. r.tenant_id == u) d.orders.rows
      → select (λ r. r.tenant_id == u) d'.order_items.rows
        ≡ select (λ r. r.tenant_id == u) d.order_items.rows
      → select (λ r. r.tenant_id == u) d'.customers ≡ select (λ r. r.tenant_id == u) d.customers
      → d'.coupons ≡ d.coupons
      → d'.tenants ≡ d.tenants
      → holdings u d' ≡ holdings u d
  unfolding holdings
  same_holdings d d' p o i c k n = cc

  place_order-other :
      (clock : Clock) (phone : String) (lang : Lang) (code : Option String) (items : List LineItem)
      (d : Database)
      → holdings u (place_order clock t phone lang code items d).1 ≡ holdings u d
  unfolding place_order order_row
  place_order-other clock phone lang code items d =
      same_holdings d (place_order clock t phone lang code items d).1 refl
        (select-append_other (λ o. o.tenant_id == u) _ (ground arith) d.orders.rows)
        (insert_items-other d.orders.next_id items d.order_items) refl refl refl

  either :
      (b : Bool) (x y : Option Order × List ℕ × Database) (h : Holdings)
      → holdings u x.2 ≡ h
      → holdings u y.2 ≡ h
      → holdings u (if b then x else y).2 ≡ h
  either true x y h p q = p
  either false x y h p q = q

  pub checkout_cart-other :
      (clock : Clock) (phone : String) (cart : Cart) (lang : Lang) (code : Option String)
      (d : Database)
      → holdings u (checkout_cart clock t phone cart lang code d).2 ≡ holdings u d
  unfolding checkout_cart
  checkout_cart-other clock phone cart lang code d =
      either (is_empty taken.line_items) (none, taken.unavailable, stocked)
        (placed.0, taken.unavailable, placed.1) (holdings u d) same
        (place_order-other clock phone lang code taken.line_items stocked ∙ same)
    where
      taken : Taken
      taken = take_stock t cart d.products.rows

      stocked : Database
      stocked = record d { products = record d.products { rows = taken.rows } }

      placed : Option Order × Database
      placed = place_order clock t phone lang code taken.line_items stocked

      same : holdings u stocked ≡ holdings u d
      same =
          same_holdings d stocked (take_stock-other cart d.products.rows) refl refl refl refl refl

  pub set_customer_name-other :
      (phone name : String) (now : ℕ) (d : Database)
      → holdings u (set_customer_name t phone name now d).1 ≡ holdings u d
  unfolding set_customer_name
  set_customer_name-other phone name now d =
      same_holdings d (set_customer_name t phone name now d).1 refl refl refl
        (ground (
          arith,
          select-update_where_other (λ c. c.tenant_id == u) (is_customer t phone)
              (λ c. record c { name = name; updated_at = now }) (λ c h. ground arith) d.customers,
          select-append_other (λ c. c.tenant_id == u)
              (record {
                tenant_id = t;
                phone = phone;
                name = name;
                created_at = now;
                updated_at = now;
              })
              (ground arith) d.customers,
        ))
        refl refl

  pub update_order_payment_link-other :
      (i : ℕ) (url : String) (id : Option String) (d : Database)
      → holdings u (update_order_payment_link t i url id d) ≡ holdings u d
  unfolding update_order_payment_link
  update_order_payment_link-other i url id d =
      same_holdings d (update_order_payment_link t i url id d) refl
        (select-update_where_other (λ o. o.tenant_id == u) (is_order t i) _ (λ o h. ground arith)
          d.orders.rows)
        refl refl refl refl

  pub mark_order_paid-other :
      (i : ℕ) (r : Option String) (at : ℕ) (m : Option String) (d : Database)
      → holdings u (mark_order_paid t i r at m d).1 ≡ holdings u d
  unfolding mark_order_paid
  mark_order_paid-other i r at m d =
      same_holdings d (mark_order_paid t i r at m d).1 refl
        (select-update_where_other (λ o. o.tenant_id == u) (payable t i) _ (λ o h. ground arith)
          d.orders.rows)
        refl refl refl refl

  pub mark_order_failed-other :
      (i : ℕ) (d : Database) → holdings u (mark_order_failed t i d).1 ≡ holdings u d
  unfolding mark_order_failed
  mark_order_failed-other i d =
      same_holdings d (mark_order_failed t i d).1 refl
        (select-update_where_other (λ o. o.tenant_id == u) (failable t i) _ (λ o h. ground arith)
          d.orders.rows)
        refl refl refl refl
