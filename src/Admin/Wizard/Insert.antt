-- ===== src/Admin/Wizard/Insert.antt =====
-- The rows that the wizard of admin/onboarding_wizard.py inserts.
use whatsapp_commerce_bot.Base.{
  ℕ, suc, ◌<◌, ◌≡◌, refl, ap, ◌∙◌, String, Bool, true, false, ◌&&◌, none, some, List, [], ◌∷◌, ◌++◌,
  arith, if◌then◌else◌, All-mono, eq_iff,
}
use whatsapp_commerce_bot.Base.Table.{
  IsBelow, select_one, any_row, select_one-append, select_one-singleton, select_one-none,
}
use whatsapp_commerce_bot.Db.{Database, Tenant}
use whatsapp_commerce_bot.Db.Tenants.{
  holds_text, is_tenant, find_tenant_by_phone_number_id, get_tenant, tenant_row, create_tenant,
}
use whatsapp_commerce_bot.World.{World, Action}
use whatsapp_commerce_bot.Portal.{Form, field, or_null}
use whatsapp_commerce_bot.Portal.Products.{is_blank}
use whatsapp_commerce_bot.Admin.Wizard.{timezone_of, WizardForm, new_tenant}

-- A property of what an action comes to, by the branch that it takes.
module _ {B : Type 0} (P : B × World → Type 0) (w : World) where
  pub by_if :
      (b : Bool) (m n : Action B)
      → (b ≡ true → P (m w))
      → (b ≡ false → P (n w))
      → P ((if b then m else n) w)
  by_if true m n h k = h refl
  by_if false m n h k = k refl

abbrev pub id_of : Tenant → ℕ
id_of t = t.id

-- The tenant that the form describes, with the next id.
abbrev pub entered : Form → Database → Tenant
entered form d = tenant_row (new_tenant form) d.tenants.next_id

-- The row of the tenant that a form describes: active, with a blank field as NULL.
pub record IsEntered (form : Form) (next_id : ℕ) (t : Tenant) : Type 0 where
  pub id : t.id ≡ next_id
  pub name : t.name ≡ field form "name"
  pub number : t.whatsapp_phone_number_id ≡ some (field form "whatsapp_phone_number_id")
  pub access_token : t.access_token ≡ or_null (field form "access_token")
  pub app_secret : t.app_secret ≡ or_null (field form "app_secret")
  pub welcome : t.welcome_message_text ≡ or_null (field form "welcome_message_text")
  pub timezone :
      t.timezone
      ≡ (if is_blank (field form "timezone") then "Asia/Kolkata" else field form "timezone")
  pub hours : t.abandoned_cart_nudge_hours ≡ (new_tenant form).abandoned_cart_nudge_hours
  pub catalog : t.meta_catalog_id ≡ or_null (field form "meta_catalog_id")
  pub provider : t.payment_gateway_provider ≡ or_null (field form "payment_gateway_provider")
  pub key_id : t.payment_gateway_key_id ≡ or_null (field form "payment_gateway_key_id")
  pub key : t.payment_gateway_api_key_ref ≡ or_null (field form "payment_gateway_api_key_ref")
  pub webhook_secret :
      t.payment_gateway_webhook_secret ≡ or_null (field form "payment_gateway_webhook_secret")
  pub active : t.is_active ≡ true
  pub tier : t.data_tier ≡ "tier1"
  pub no_password : t.portal_password_hash ≡ none

timezone_or : (s : String) → timezone_of s ≡ (if is_blank s then "Asia/Kolkata" else s)
timezone_or String.[] = refl
timezone_or (String.◌∷◌ c s) = refl

pub entered-IsEntered :
    (form : Form) (d : Database) → IsEntered form d.tenants.next_id (entered form d)
unfolding tenant_row new_tenant
entered-IsEntered form d = record {
  id = refl;
  name = refl;
  number = refl;
  access_token = refl;
  app_secret = refl;
  welcome = refl;
  timezone = timezone_or (field form "timezone");
  hours = refl;
  catalog = refl;
  provider = refl;
  key_id = refl;
  key = refl;
  webhook_secret = refl;
  active = refl;
  tier = refl;
  no_password = refl;
}

abbrev pub number_of : Form → String
number_of form = field form "whatsapp_phone_number_id"

-- A query that asks for more than a test that no row passes finds none.
select_one-unmatched :
    {A : Type 0} (p q : A → Bool) (rs : List A)
    → any_row p rs ≡ false
    → select_one (λ r. p r && q r) rs ≡ none
unfolding select_one any_row
select_one-unmatched p q [] h = refl
select_one-unmatched p q (r ∷ rs) h = ground (arith, select_one-unmatched p q rs)

module _ (form : WizardForm) (d : Database) where
  abbrev pub with_tenant : Database
  with_tenant = record d {
    tenants = record {
      rows = d.tenants.rows ++ entered form.get d ∷ [];
      next_id = suc d.tenants.next_id;
    };
  }

  found :
      (test : Tenant → Bool)
      → select_one test d.tenants.rows ≡ none
      → test (entered form.get d) ≡ true
      → select_one test with_tenant.tenants.rows ≡ some (entered form.get d)
  found test h e =
      select_one-append test d.tenants.rows (entered form.get d ∷ [])
      ∙ rw h (select_one-singleton test (entered form.get d) e)

  get_entered :
      IsBelow id_of d.tenants.next_id d.tenants.rows
      → get_tenant d.tenants.next_id with_tenant ≡ some (entered form.get d)
  unfolding get_tenant tenant_row
  get_entered below =
      found (is_tenant d.tenants.next_id)
        (select_one-none (is_tenant d.tenants.next_id) d.tenants.rows (
          All-mono (λ t. id_of t < d.tenants.next_id) (λ t. is_tenant d.tenants.next_id t ≡ false)
            (λ t lt. ground arith) d.tenants.rows below))
        (ground arith)

  pub find_entered :
      any_row (λ t. holds_text t.whatsapp_phone_number_id (number_of form.get)) d.tenants.rows
        ≡ false
      → find_tenant_by_phone_number_id (number_of form.get) with_tenant ≡ some (entered form.get d)
  unfolding find_tenant_by_phone_number_id tenant_row new_tenant
  find_entered h =
      found (λ t. holds_text t.whatsapp_phone_number_id (number_of form.get) && t.is_active)
        (select_one-unmatched (λ t. holds_text t.whatsapp_phone_number_id (number_of form.get))
          (λ t. t.is_active) d.tenants.rows h)
        (ground (arith, (eq_iff (number_of form.get) (number_of form.get)).1 refl))

  pub create_tenant-new :
      IsBelow id_of d.tenants.next_id d.tenants.rows
      → any_row (λ t. holds_text t.whatsapp_phone_number_id (number_of form.get)) d.tenants.rows
        ≡ false
      → create_tenant (new_tenant form.get) d ≡ (some (entered form.get d), with_tenant)
  unfolding create_tenant new_tenant
  create_tenant-new below h = rw h (ap (λ o. (o, with_tenant)) (get_entered below))

  pub create_tenant-taken :
      any_row (λ t. holds_text t.whatsapp_phone_number_id (number_of form.get)) d.tenants.rows
        ≡ true
      → create_tenant (new_tenant form.get) d
        ≡ (none, record d { tenants = record d.tenants { next_id = suc d.tenants.next_id } })
  unfolding create_tenant new_tenant
  create_tenant-taken h = rw h refl
