-- ===== src/Db/Checkout/Atomic.antt =====
-- `checkout_cart` of db/repository.py as a whole: the case in which nothing is sold, and the case in
-- which an order is placed.
use whatsapp_commerce_bot.Base.{
  false, ℕ, ◌≡◌, ◌≢◌, refl, ap, ◌∙◌, ◌⊎◌, inl, inr, String, Option, none, some, List, [], ◌∷◌, map,
  arith, is_empty,
}
use whatsapp_commerce_bot.Base.Table.{Unique}
use whatsapp_commerce_bot.Db.{Database, Order, Lang, Clock}
use whatsapp_commerce_bot.Db.Checkout.{
  Cart, LineItem, Taken, take_stock, place_order, checkout_cart,
}
use whatsapp_commerce_bot.Db.Checkout.Stock.{
  product_id_of, after_sale, take_stock-after_sale, take_stock-unsold,
}
use whatsapp_commerce_bot.Db.Checkout.Placed.{IsFresh, IsPlaced, place_order-IsPlaced}

-- Tables that a checkout only reads.
abbrev pub SameTables : Database → Database → Type 0
SameTables d d' = (d'.tenants ≡ d.tenants) × (d'.coupons ≡ d.coupons) × (d'.customers ≡ d.customers)

abbrev pub Checked :
    ℕ → String → Lang → List LineItem → Database → Option Order × List ℕ × Database → Type 0
Checked t phone language items d (order, _, d') =
    ((items ≡ []) × (order ≡ none) × (d' ≡ d))
    ⊎ ((items ≢ [])
        × (o : Order) × (order ≡ some o)
        × IsPlaced t phone language items d' o
        × (d'.products.rows ≡ map (after_sale t items) d.products.rows)
        × SameTables d d')

module _ (clock : Clock) (t : ℕ) (phone : String) (cart : Cart) (language : Lang)
    (code : Option String) (d : Database) where
  abbrev taken : Taken
  taken = take_stock t cart d.products.rows

  abbrev stocked : Database
  stocked = record d { products = record d.products { rows = taken.rows } }

  place_order-others :
      (items : List LineItem) (e : Database)
      → ((place_order clock t phone language code items e).1.products ≡ e.products)
        × SameTables e (place_order clock t phone language code items e).1
  unfolding place_order
  place_order-others items e = (refl, (refl, refl, refl))

  checkout_unsold :
      taken.line_items ≡ []
      → checkout_cart clock t phone cart language code d ≡ (none, taken.unavailable, stocked)
  unfolding checkout_cart
  checkout_unsold h = ground arith

  checkout_sold :
      is_empty taken.line_items ≡ false
      → checkout_cart clock t phone cart language code d ≡ (
        (place_order clock t phone language code taken.line_items stocked).0,
        taken.unavailable,
        (place_order clock t phone language code taken.line_items stocked).1,
      )
  unfolding checkout_cart
  checkout_sold h = ground arith

  -- A checkout is all or nothing. Where no entry of the cart can be sold it returns no order and
  -- leaves the database as it was. Otherwise something was sold, and it returns an order of that customer, pending payment and in
  -- that language, whose items are what was sold, whose total is their sum less a discount that is
  -- at most that sum; each of the tenant's products has lost what the items hold of it, and no
  -- other product and no tenant, coupon or customer has changed. The ids in use differ and are below
  -- those still to come.
  pub checkout_cart-Checked :
      IsFresh d
      → Unique product_id_of d.products.rows
      → Checked t phone language taken.line_items d
          (checkout_cart clock t phone cart language code d)
  checkout_cart-Checked fresh unique = go taken.line_items refl
    where
      same : taken.line_items ≡ [] → stocked ≡ d
      same none_sold =
          ap (λ rows. record d { products = record d.products { rows = rows } })
            (take_stock-unsold t cart d.products.rows none_sold)

      go :
          (items : List LineItem)
          → taken.line_items ≡ items
          → Checked t phone language taken.line_items d
              (checkout_cart clock t phone cart language code d)
      go [] e = inl (e, rw (checkout_unsold e), rw (checkout_unsold e) (same e))
      go (i ∷ is) e =
          let placed = place_order clock t phone language code taken.line_items stocked in
          let (o, found, right) =
            place_order-IsPlaced clock t phone language code taken.line_items stocked
              (record { orders = fresh.orders; items = fresh.items }) in
          let others = place_order-others taken.line_items stocked in
          rw (checkout_sold (rw e)) (
            inr (
              (λ nothing. cc),
              o,
              found,
              right,
              ap (λ p. p.rows) others.0 ∙ take_stock-after_sale t cart d.products.rows unique,
              others.1,
            ))
