-- ===== src/Portal/Isolation.antt =====
-- What the portal's requests of one merchant leave of another tenant's rows.
use whatsapp_commerce_bot.Base.{
  subst, ℕ, ◌≡◌, ◌≢◌, refl, sym, ap, ◌∙◌, String, Option, none, some, Option-cases, inl, inr, arith,
}
use whatsapp_commerce_bot.Base.Int.{ℤ, pos, negsuc}
use whatsapp_commerce_bot.Base.Table.{select_one_holds}
use whatsapp_commerce_bot.Db.{Database, Tenant}
use whatsapp_commerce_bot.Db.Isolation.{Holdings}
use whatsapp_commerce_bot.Db.Isolation.Shop.{shop_of}
use whatsapp_commerce_bot.Db.Tenants.{is_tenant, get_tenant}
use whatsapp_commerce_bot.World.{Env, World, Action, query, ◌>>=◌}
use whatsapp_commerce_bot.World.Keeps.{
  on_some-found, on_some-missing, Keeps, keeps_rules, Keeps-pure,
}
use whatsapp_commerce_bot.Portal.{redirect, Answer}
use whatsapp_commerce_bot.Portal.Cookie.{
  Verified, nobody, tenant_id, type_error, verify_session_cookie,
}
use whatsapp_commerce_bot.Portal.Guard.{Host, if_active, session_tenant, admit, signed_in}
use whatsapp_commerce_bot.Portal.Products.{
  products_import_submit, product_edit_submit, product_toggle_active, product_edit_form,
  product_new_submit, products_import_form, product_new_form, products_list,
}
use whatsapp_commerce_bot.Portal.Coupons.{
  coupon_toggle_active, coupon_new_submit, coupon_new_form, coupons_list,
}
use whatsapp_commerce_bot.Portal.Orders.{orders_list, order_fulfill, order_detail}
use whatsapp_commerce_bot.Portal.Settings.{settings_password_submit, settings_submit, settings_form}
use whatsapp_commerce_bot.Portal.Routes.{Request, portal_request}
use whatsapp_commerce_bot.Portal.Writes.{
  create-Keeps, update-Keeps, toggle-Keeps, toggle_coupon-Keeps, submit_product-Keeps,
  submit_coupon-Keeps, submit_settings-Keeps, submit_password-Keeps, fulfil-Keeps, import-Keeps,
  at_id-Keeps, with_product-Keeps, with_order-Keeps,
}

if_active_same : (o : Option Tenant) {t : Tenant} → if_active o ≡ some t → o ≡ some t
if_active_same none e = cc
if_active_same (some r) {t} e = ground arith

-- A session's tenant has the cookie's id.
session_tenant-id : (i : ℤ) (d : Database) {t : Tenant} → session_tenant i d ≡ some t → i ≡ pos t.id
unfolding session_tenant get_tenant
session_tenant-id (pos n) d {t} e =
    let own = select_one_holds (is_tenant n) d.tenants.rows (if_active_same _ e) in
    ground (arith, own)
session_tenant-id (negsuc n) d e = cc

module _ (host : Host) (env : Env) (cookie : Option String) (u : ℕ) (h : Holdings)
    (other : verify_session_cookie host.sign env.clock.now cookie ≢ tenant_id (pos u)) where
  abbrev Same : World → Type 0
  Same w = shop_of u w.db ≡ h

  admit-Keeps :
      (v : Verified) (route : Tenant → Action Answer)
      → v ≢ tenant_id (pos u)
      → ((t : Tenant) → t.id ≢ u → Keeps Same (route t))
      → Keeps Same (admit v route)
  unfolding query ◌>>=◌
  admit-Keeps nobody route ne k = Keeps-pure _
  admit-Keeps type_error route ne k = Keeps-pure _
  admit-Keeps (tenant_id i) route ne k = record {
    at = λ w p. elim (Option-cases (session_tenant i w.db)) [
      | inl missing ↦
          subst (λ (r : Answer × World). Same r.1)
            (sym (on_some-missing (session_tenant i w.db) _ _ w missing))
            ((Keeps-pure {P = Same} (redirect "/portal/login")).at w p)
      | inr (t, found) ↦
          subst (λ (r : Answer × World). Same r.1)
            (sym (on_some-found (session_tenant i w.db) _ _ t w found))
            ((k t (λ e. ne (ap tenant_id (session_tenant-id i w.db found ∙ ap pos e)))).at w p)
    ];
  }

  signed_in-Keeps :
      (route : Tenant → Action Answer)
      → ((t : Tenant) → t.id ≢ u → Keeps Same (route t))
      → Keeps Same (signed_in host env cookie route)
  unfolding signed_in
  signed_in-Keeps route k = admit-Keeps _ route other k

  request-Keeps : (r : Request) → Keeps Same (portal_request host env cookie r)
  unfolding portal_request products_list product_new_form products_import_form coupons_list
      coupon_new_form settings_form product_new_submit coupon_new_submit settings_submit
      settings_password_submit product_edit_form product_toggle_active coupon_toggle_active
      order_detail order_fulfill product_edit_submit products_import_submit orders_list
  request-Keeps Request.list_products = signed_in-Keeps _ (λ t ne. search keeps_rules)
  request-Keeps Request.new_product = signed_in-Keeps _ (λ t ne. search keeps_rules)
  request-Keeps Request.import_page = signed_in-Keeps _ (λ t ne. search keeps_rules)
  request-Keeps Request.list_coupons = signed_in-Keeps _ (λ t ne. search keeps_rules)
  request-Keeps Request.new_coupon = signed_in-Keeps _ (λ t ne. search keeps_rules)
  request-Keeps Request.settings = signed_in-Keeps _ (λ t ne. search keeps_rules)
  request-Keeps (Request.add_product form) =
      signed_in-Keeps _
        (λ t ne. submit_product-Keeps host env t u ne h _ _ (create-Keeps host env t u ne h))
  request-Keeps (Request.add_coupon form) =
      signed_in-Keeps _ (λ t ne. submit_coupon-Keeps host env t u ne h _)
  request-Keeps (Request.save_settings form) =
      signed_in-Keeps _ (λ t ne. submit_settings-Keeps host env t u ne h form)
  request-Keeps (Request.change_password form) =
      signed_in-Keeps _ (λ t ne. submit_password-Keeps host env t u ne h form)
  request-Keeps (Request.edit_product i) =
      signed_in-Keeps _ (λ t ne. with_product-Keeps host env t u ne h i _ (λ n p. Keeps-pure _))
  request-Keeps (Request.toggle_product i) = signed_in-Keeps _ (λ t ne.
      with_product-Keeps host env t u ne h i _
        (λ n p. search (keeps_rules, toggle-Keeps host env t u ne h)))
  request-Keeps (Request.toggle_coupon i) = signed_in-Keeps _ (λ t ne.
      at_id-Keeps host env t u ne h i _
        (λ n. search (keeps_rules, toggle_coupon-Keeps host env t u ne h) depth 9))
  request-Keeps (Request.show_order i) =
      signed_in-Keeps _
        (λ t ne. with_order-Keeps host env t u ne h i _ (λ n o. search keeps_rules depth 9))
  request-Keeps (Request.fulfil_order i) =
      signed_in-Keeps _
        (λ t ne. with_order-Keeps host env t u ne h i _ (fulfil-Keeps host env t u ne h))
  request-Keeps (Request.save_product i form) = signed_in-Keeps _ (λ t ne.
      with_product-Keeps host env t u ne h i _
        (λ n p. submit_product-Keeps host env t u ne h _ _ (update-Keeps host env t u ne h n)))
  request-Keeps (Request.import_products upload) =
      signed_in-Keeps _ (λ t ne. import-Keeps host env t u ne h upload)
  request-Keeps (Request.list_orders status) =
      signed_in-Keeps _ (λ t ne. search keeps_rules depth 9)

-- Whatever a merchant asks of the portal, with whatever cookie, unless the cookie is a valid one of
-- that tenant itself: a tenant's row, products, orders, order items, customers and coupons stay.
pub portal_request-shop_of :
    (host : Host) (env : Env) (cookie : Option String) (request : Request) (w : World) (u : ℕ)
    → verify_session_cookie host.sign env.clock.now cookie ≢ tenant_id (pos u)
    → shop_of u (portal_request host env cookie request w).1.db ≡ shop_of u w.db
portal_request-shop_of host env cookie request w u other =
    (request-Keeps host env cookie u (shop_of u w.db) other request).at w refl
