-- ===== src/Db/Isolation/Shop.antt =====
-- What the portal's writes for one tenant leave of another: its own row among them.
use whatsapp_commerce_bot.Base.{
  ℕ, ◌≡◌, refl, ◌∙◌, ◌≢◌, String, Bool, true, false, Option, some, arith, ◌==◌, select,
  if◌then◌else◌,
}
use whatsapp_commerce_bot.Base.Table.{update_where, insert_row}
use whatsapp_commerce_bot.Db.{Database, Tenant, Product, Coupon, DiscountType, Clock}
use whatsapp_commerce_bot.Db.Products.{
  is_product, catalog_retailer_id_of, product_row, ProductFields, create_product, update_product,
  set_product_active,
}
use whatsapp_commerce_bot.Db.Coupons.{is_coupon, create_coupon, set_coupon_active}
use whatsapp_commerce_bot.Db.Orders.{fulfillable, mark_order_fulfilled}
use whatsapp_commerce_bot.Db.Tenants.{
  is_tenant, update_tenant_catalog_and_payment, set_tenant_portal_password_hash,
}
use whatsapp_commerce_bot.Db.Isolation.{
  Holdings, holdings, select-update_where_other, select-append_other,
}

-- The rows of one tenant, and its own.
unfoldable pub shop_of : ℕ → Database → Holdings
unfolding holdings
shop_of u d = record (holdings u d) { tenants = select (λ t. t.id == u) d.tenants.rows }

module _ (t u : ℕ) (apart : t ≢ u) where
  same_shop :
      (d d' : Database)
      → select (λ r. r.tenant_id == u) d'.products.rows
        ≡ select (λ r. r.tenant_id == u) d.products.rows
      → select (λ r. r.tenant_id == u) d'.orders.rows ≡ select (λ r. r.tenant_id == u) d.orders.rows
      → d'.order_items ≡ d.order_items
      → d'.customers ≡ d.customers
      → select (λ r. r.tenant_id == u) d'.coupons.rows
        ≡ select (λ r. r.tenant_id == u) d.coupons.rows
      → select (λ r. r.id == u) d'.tenants.rows ≡ select (λ r. r.id == u) d.tenants.rows
      → shop_of u d' ≡ shop_of u d
  unfolding shop_of
  same_shop d d' p o i c k n = cc

  products-other :
      (p : Product → Bool) (f : Product → Product)
      → ((r : Product)
          → p r ≡ true
          → ((r.tenant_id == u) ≡ false) × (((f r).tenant_id == u) ≡ false))
      → (d : Database)
      → shop_of u
          (record d { products = record d.products { rows = update_where p f d.products.rows } })
        ≡ shop_of u d
  products-other p f h d =
      same_shop d _ (select-update_where_other (λ r. r.tenant_id == u) p f h d.products.rows) refl
        refl refl refl refl

  pub create_product-other :
      (currency : String) (f : ProductFields) (d : Database)
      → shop_of u (create_product t currency f d).1 ≡ shop_of u d
  unfolding create_product
  create_product-other currency f d =
      let inserted = record d { products = insert_row (product_row t currency f) d.products } in
      products-other (is_product t d.products.next_id)
        (λ p. record p { catalog_retailer_id = some (catalog_retailer_id_of t d.products.next_id) })
        (λ r e. ground arith) inserted
      ∙ same_shop d inserted
          (select-append_other (λ r. r.tenant_id == u) (product_row t currency f d.products.next_id)
            (ground arith) d.products.rows)
          refl refl refl refl refl

  pub update_product-other :
      (i : ℕ) (f : ProductFields) (d : Database)
      → shop_of u (update_product t i f d).1 ≡ shop_of u d
  unfolding update_product
  update_product-other i f d =
      products-other (is_product t i) _ (λ r e. (ground arith, ground arith)) d

  pub set_product_active-other :
      (i : ℕ) (b : Bool) (d : Database) → shop_of u (set_product_active t i b d) ≡ shop_of u d
  unfolding set_product_active
  set_product_active-other i b d =
      products-other (is_product t i) _ (λ r e. (ground arith, ground arith)) d

  pub mark_order_fulfilled-other :
      (i : ℕ) (d : Database) → shop_of u (mark_order_fulfilled t i d).1 ≡ shop_of u d
  unfolding mark_order_fulfilled
  mark_order_fulfilled-other i d =
      same_shop d (mark_order_fulfilled t i d).1 refl
        (select-update_where_other (λ o. o.tenant_id == u) (fulfillable t i) _ (λ o h. ground arith)
          d.orders.rows)
        refl refl refl refl

  either_coupon :
      (b : Bool) (x y : Option Coupon × Database) (d : Database)
      → shop_of u x.1 ≡ shop_of u d
      → shop_of u y.1 ≡ shop_of u d
      → shop_of u (if b then x else y).1 ≡ shop_of u d
  either_coupon true x y d p q = p
  either_coupon false x y d p q = q

  pub create_coupon-other :
      (clock : Clock) (code : String) (type : DiscountType) (value : ℕ) (until : Option String)
      (d : Database)
      → shop_of u (create_coupon clock t code type value until d).1 ≡ shop_of u d
  unfolding create_coupon
  create_coupon-other clock code type value until d =
      either_coupon _ _ _ d (same_shop d _ refl refl refl refl refl refl) (
        same_shop d _ refl refl refl refl
          (select-append_other (λ c. c.tenant_id == u) _ (ground arith) d.coupons.rows) refl)

  pub set_coupon_active-other :
      (i : ℕ) (b : Bool) (d : Database) → shop_of u (set_coupon_active t i b d) ≡ shop_of u d
  unfolding set_coupon_active
  set_coupon_active-other i b d =
      same_shop d (set_coupon_active t i b d) refl refl refl refl
        (select-update_where_other (λ c. c.tenant_id == u) (is_coupon t i) _ (λ c h. ground arith)
          d.coupons.rows)
        refl

  tenants-other :
      (f : Tenant → Tenant)
      → ((r : Tenant) → (f r).id ≡ r.id)
      → (d : Database)
      → shop_of u (record d {
        tenants = record d.tenants { rows = update_where (is_tenant t) f d.tenants.rows };
      })
        ≡ shop_of u d
  tenants-other f keep d = same_shop d _ refl refl refl refl refl (
      select-update_where_other (λ r. r.id == u) (is_tenant t) f
        (λ r h. (ground arith, ground (arith, keep r))) d.tenants.rows)

  pub update_tenant_catalog_and_payment-other :
      (catalog provider key_id key secret : Option String) (hours : Option ℕ) (d : Database)
      → shop_of u (update_tenant_catalog_and_payment t catalog provider key_id key secret hours d)
        ≡ shop_of u d
  unfolding update_tenant_catalog_and_payment
  update_tenant_catalog_and_payment-other catalog provider key_id key secret hours d =
      tenants-other _ (λ r. refl) d

  pub set_tenant_portal_password_hash-other :
      (hash : String) (d : Database)
      → shop_of u (set_tenant_portal_password_hash t hash d) ≡ shop_of u d
  unfolding set_tenant_portal_password_hash
  set_tenant_portal_password_hash-other hash d = tenants-other _ (λ r. refl) d
