-- ===== src/Portal/Writes.antt =====
-- What the portal's writes of one tenant leave of another tenant's rows.
use whatsapp_commerce_bot.Base.{ℕ, ◌≡◌, ◌≢◌, ◌∙◌, String, Bool, Option, none, some, List, [], ◌∷◌}
use whatsapp_commerce_bot.Base.Int.{ℤ, pos, negsuc}
use whatsapp_commerce_bot.Db.{Database, Tenant, Product, Order, DiscountType}
use whatsapp_commerce_bot.Db.Isolation.{Holdings}
use whatsapp_commerce_bot.Db.Isolation.Shop.{
  shop_of, create_product-other, update_product-other, set_product_active-other,
  mark_order_fulfilled-other, create_coupon-other, set_coupon_active-other,
  update_tenant_catalog_and_payment-other, set_tenant_portal_password_hash-other,
}
use whatsapp_commerce_bot.Db.Products.{
  ProductFields, create_product, update_product, set_product_active,
}
use whatsapp_commerce_bot.Db.Coupons.{create_coupon, set_coupon_active}
use whatsapp_commerce_bot.Db.Orders.{mark_order_fulfilled}
use whatsapp_commerce_bot.Db.Tenants.{
  update_tenant_catalog_and_payment, set_tenant_portal_password_hash,
}
use whatsapp_commerce_bot.World.{Env, World, Action, pure, call, execute, send, ◌>>=◌}
use whatsapp_commerce_bot.World.Keeps.{Keeps, keeps_rules, Keeps-bind, Keeps-pure, Keeps-on_some}
use whatsapp_commerce_bot.Flow.Prompts.{send_text}
use whatsapp_commerce_bot.Flow.Webhooks.{tell_customer, handle_order_fulfilled}
use whatsapp_commerce_bot.Onboarding.{Parsed, Import, parse_csv_products}
use whatsapp_commerce_bot.Portal.{Answer, Form}
use whatsapp_commerce_bot.Portal.Guard.{Host, at_id}
use whatsapp_commerce_bot.Portal.Products.{
  ProductForm, currency, submit_product, create_all, import_products, import_upload, with_product,
}
use whatsapp_commerce_bot.Portal.Coupons.{CouponForm, submit_coupon}
use whatsapp_commerce_bot.Portal.Orders.{with_order, fulfil}
use whatsapp_commerce_bot.Portal.Settings.{submit_settings, settings_written, submit_password}

module _ (host : Host) (env : Env) (t : Tenant) (u : ℕ) (apart : t.id ≢ u) (h : Holdings) where
  abbrev Holds : World → Type 0
  Holds w = shop_of u w.db ≡ h

  pub create-Keeps : (f : ProductFields) → Keeps Holds (call (create_product t.id currency f))
  unfolding call
  create-Keeps f = record { at = λ w p. create_product-other t.id u apart currency f w.db ∙ p }

  pub update-Keeps : (i : ℕ) (f : ProductFields) → Keeps Holds (call (update_product t.id i f))
  unfolding call
  update-Keeps i f = record { at = λ w p. update_product-other t.id u apart i f w.db ∙ p }

  pub toggle-Keeps : (i : ℕ) (b : Bool) → Keeps Holds (execute (set_product_active t.id i b))
  unfolding call
  toggle-Keeps i b = record { at = λ w p. set_product_active-other t.id u apart i b w.db ∙ p }

  fulfilled-Keeps : (i : ℕ) → Keeps Holds (call (mark_order_fulfilled t.id i))
  unfolding call
  fulfilled-Keeps i = record { at = λ w p. mark_order_fulfilled-other t.id u apart i w.db ∙ p }

  coupon-Keeps :
      (code : String) (type : DiscountType) (value : ℕ) (until : Option String)
      → Keeps Holds (call (create_coupon env.clock t.id code type value until))
  unfolding call
  coupon-Keeps code type value until = record {
    at = λ w p. create_coupon-other t.id u apart env.clock code type value until w.db ∙ p;
  }

  pub toggle_coupon-Keeps : (i : ℕ) (b : Bool) → Keeps Holds (execute (set_coupon_active t.id i b))
  unfolding call
  toggle_coupon-Keeps i b = record { at = λ w p. set_coupon_active-other t.id u apart i b w.db ∙ p }

  settings-Keeps :
      (catalog provider key_id key secret : Option String) (hours : Option ℕ)
      → Keeps Holds (
          execute (update_tenant_catalog_and_payment t.id catalog provider key_id key secret hours))
  unfolding call
  settings-Keeps catalog provider key_id key secret hours = record {
    at = λ w p.
        update_tenant_catalog_and_payment-other t.id u apart catalog provider key_id key secret
          hours w.db
        ∙ p;
  }

  password-Keeps :
      (hash : String) → Keeps Holds (execute (set_tenant_portal_password_hash t.id hash))
  unfolding call
  password-Keeps hash = record {
    at = λ w p. set_tenant_portal_password_hash-other t.id u apart hash w.db ∙ p;
  }

  tells-Keeps : (o : Order) → Keeps Holds (handle_order_fulfilled env o)
  unfolding handle_order_fulfilled tell_customer send_text send pure ◌>>=◌
  tells-Keeps o = record { at = λ w p. p }

  ruleset writes = (
    keeps_rules, create-Keeps, update-Keeps, toggle-Keeps, fulfilled-Keeps, coupon-Keeps,
    toggle_coupon-Keeps, settings-Keeps, password-Keeps, tells-Keeps,
  )

  pub submit_product-Keeps :
      (v : ProductForm) (write : ProductFields → Database → Option Product × Database)
      → ((f : ProductFields) → Keeps Holds (call (write f)))
      → Keeps Holds (submit_product host v write)
  unfolding submit_product
  submit_product-Keeps v write k = search (keeps_rules, k) depth 12

  create_all-Keeps : (n : ℕ) (ps : List Parsed) → Keeps Holds (create_all host t.id n ps)
  unfolding create_all
  create_all-Keeps n [] = search keeps_rules
  create_all-Keeps n (p ∷ ps) =
      Keeps-on_some _ _ _ (Keeps-pure _)
        (λ f. Keeps-bind _ _ (create-Keeps f) (λ r. create_all-Keeps n ps))

  pub submit_coupon-Keeps : (v : CouponForm) → Keeps Holds (submit_coupon host env t.id v)
  unfolding submit_coupon
  submit_coupon-Keeps v = search writes depth 12

  pub submit_settings-Keeps : (form : Form) → Keeps Holds (submit_settings host env t form)
  unfolding submit_settings settings_written
  submit_settings-Keeps form = search writes depth 12

  pub submit_password-Keeps : (form : Form) → Keeps Holds (submit_password host env t form)
  unfolding submit_password
  submit_password-Keeps form = search writes depth 12

  pub fulfil-Keeps : (i : ℕ) (o : Order) → Keeps Holds (fulfil env t i o)
  unfolding fulfil
  fulfil-Keeps i o = search writes depth 12

  pub import-Keeps :
      (upload : Option (Option String)) → Keeps Holds (import_upload host t.id upload)
  unfolding import_upload
  import-Keeps none = Keeps-pure _
  import-Keeps (some content) = parsed (parse_csv_products content)
    where
      parsed : (read : Option Import) → Keeps Holds (import_products host t.id read)
      parsed none = Keeps-pure _
      parsed (some read) = search (keeps_rules, create_all-Keeps) depth 8

  pub at_id-Keeps :
      (i : ℤ) (route : ℕ → Action Answer)
      → ((n : ℕ) → Keeps Holds (route n))
      → Keeps Holds (at_id i route)
  at_id-Keeps (pos n) route k = k n
  at_id-Keeps (negsuc n) route k = Keeps-pure _

  pub with_product-Keeps :
      (i : ℤ) (route : ℕ → Product → Action Answer)
      → ((n : ℕ) (p : Product) → Keeps Holds (route n p))
      → Keeps Holds (with_product t i route)
  unfolding with_product
  with_product-Keeps i route k = at_id-Keeps i _ (λ n. search (keeps_rules, k n) depth 8)

  pub with_order-Keeps :
      (i : ℤ) (route : ℕ → Order → Action Answer)
      → ((n : ℕ) (o : Order) → Keeps Holds (route n o))
      → Keeps Holds (with_order t i route)
  unfolding with_order
  with_order-Keeps i route k = at_id-Keeps i _ (λ n. search (keeps_rules, k n) depth 8)
