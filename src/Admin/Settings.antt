-- ===== src/Admin/Settings.antt =====
-- admin/onboarding.py: the operator's changes of a tenant's catalog and payment fields, and of its
-- portal password.
use whatsapp_commerce_bot.Base.{
  ℕ, String, ◌&&◌, not, Option, none, some, [], ◌∷◌, str_eq, ltb, if◌then◌else◌,
}
use whatsapp_commerce_bot.Base.Int.{ℤ, by_id}
use whatsapp_commerce_bot.Db.{Tenant}
use whatsapp_commerce_bot.Db.Tenants.{
  get_tenant, update_tenant_catalog_and_payment, set_tenant_portal_password_hash,
}
use whatsapp_commerce_bot.World.{Action, pure, query, execute, ◌>>=◌, ◌>>◌, on_some}
use whatsapp_commerce_bot.Portal.{
  Form, field, or_null, bad_provider, bad_nudge_hours, short_password, unequal_passwords,
}
use whatsapp_commerce_bot.Portal.Guard.{Host}
use whatsapp_commerce_bot.Portal.Password.{hash_password}
use whatsapp_commerce_bot.Portal.Products.{is_blank}
use whatsapp_commerce_bot.Portal.Settings.{
  Hours, keep, wrong, hours, parse_nudge_hours, length_of, typed,
}
use whatsapp_commerce_bot.Admin.{
  Answer, Content, page, forbidden, not_found, crashed, refused, catalog_form, catalog_saved,
  password_form, password_saved,
}

-- The tenant of the path, or 404.
abbrev with_tenant : ℤ → (Tenant → Action Answer) → Action Answer
with_tenant tenant_id route = do
  tenant ← query (λ d. by_id (λ n. get_tenant n d) tenant_id)
  on_some tenant (pure not_found) route

-- The page about the tenant that is read again.
abbrev shown_saved : ℕ → (Tenant → Content) → Action Answer
shown_saved tenant_id saved = do
  tenant ← query (get_tenant tenant_id)
  on_some tenant (pure crashed) λ t. pure (page (saved t))

module _ (host : Host) (admin_secret : String) where
  abbrev if_secret : Form → Action Answer → Action Answer
  if_secret form route =
      if str_eq (typed form "admin_secret") admin_secret then route else pure forbidden

  unfoldable pub catalog_written : Tenant → Form → Option ℕ → Action Answer
  catalog_written t form nudge_hours = do
    execute (
        update_tenant_catalog_and_payment t.id (or_null (field form "meta_catalog_id"))
          (or_null (field form "payment_gateway_provider"))
          (or_null (field form "payment_gateway_key_id"))
          (or_null (field form "payment_gateway_api_key_ref"))
          (or_null (field form "payment_gateway_webhook_secret")) nudge_hours)
    shown_saved t.id catalog_saved

  abbrev with_hours : Tenant → Form → Hours → Action Answer
  with_hours t form wrong = pure (refused (bad_nudge_hours ∷ []))
  with_hours t form keep = catalog_written t form none
  with_hours t form (hours n) =
      if ltb n 2147483648 then catalog_written t form (some n) else pure crashed

  -- The provider is compared as it was typed.
  unfoldable pub submit_catalog : Form → Tenant → Action Answer
  submit_catalog form t =
      let provider = typed form "payment_gateway_provider" in
      if not (is_blank provider) && not (str_eq provider "razorpay")
      then pure (refused (bad_provider ∷ []))
      else with_hours t form (parse_nudge_hours (field form "abandoned_cart_nudge_hours"))

  unfoldable pub edit_tenant_catalog_payment_form : ℤ → Action Answer
  edit_tenant_catalog_payment_form tenant_id =
      with_tenant tenant_id λ t. pure (page (catalog_form t))

  unfoldable pub edit_tenant_catalog_payment_submit : ℤ → Form → Action Answer
  edit_tenant_catalog_payment_submit tenant_id form =
      with_tenant tenant_id λ t. if_secret form (submit_catalog form t)

  unfoldable pub portal_password_form : ℤ → Action Answer
  portal_password_form tenant_id = with_tenant tenant_id λ t. pure (page (password_form t))

  unfoldable pub submit_portal_password : Form → Tenant → Action Answer
  submit_portal_password form t =
      let new_password = typed form "new_password" in
      if ltb (length_of new_password) 8
      then pure (refused (short_password ∷ []))
      else (if str_eq new_password (typed form "confirm_password")
          then (do
            execute (
                set_tenant_portal_password_hash t.id
                  (hash_password host.pbkdf2 host.urandom new_password))
            shown_saved t.id password_saved)
          else pure (refused (unequal_passwords ∷ [])))

  unfoldable pub portal_password_submit : ℤ → Form → Action Answer
  portal_password_submit tenant_id form =
      with_tenant tenant_id λ t. if_secret form (submit_portal_password form t)
