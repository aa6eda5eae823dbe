-- ===== src/Db/Tenants.antt =====
-- db/repository.py, the tenants: routing, lookup, onboarding's insert and its two updates.
use whatsapp_commerce_bot.Base.{
  ℕ, suc, String, Bool, true, false, ◌&&◌, Option, none, some, List, ◌==◌, str_eq, coalesce,
  or_else, select, if◌then◌else◌,
}
use whatsapp_commerce_bot.Base.Table.{select_one, any_row, update_table, insert_row}
use whatsapp_commerce_bot.Db.{Database, Tenant}

-- `column = ?` where the column may be NULL, which equals nothing.
abbrev pub holds_text : Option String → String → Bool
holds_text none s = false
holds_text (some r) s = str_eq r s

abbrev pub is_tenant : ℕ → Tenant → Bool
is_tenant tenant_id t = t.id == tenant_id

unfoldable pub find_tenant_by_phone_number_id : String → Database → Option Tenant
find_tenant_by_phone_number_id phone_number_id d =
    select_one (λ t. holds_text t.whatsapp_phone_number_id phone_number_id && t.is_active)
      d.tenants.rows

unfoldable pub get_active_tenants : Database → List Tenant
get_active_tenants d = select (λ t. t.is_active) d.tenants.rows

unfoldable pub get_tenant : ℕ → Database → Option Tenant
get_tenant tenant_id d = select_one (is_tenant tenant_id) d.tenants.rows

-- The arguments of `create_tenant`, its defaults filled in by the caller.
pub record NewTenant : Type 0 where
  pub name : String
  pub whatsapp_phone_number_id : String
  pub access_token : Option String
  pub app_secret : Option String
  pub welcome_message_text : Option String
  pub timezone : String
  pub abandoned_cart_nudge_hours : ℕ
  pub meta_catalog_id : Option String
  pub payment_gateway_provider : Option String
  pub payment_gateway_key_id : Option String
  pub payment_gateway_api_key_ref : Option String
  pub payment_gateway_webhook_secret : Option String
  pub data_tier : String
  pub external_api_base_url : Option String
  pub external_api_key : Option String

unfoldable pub tenant_row : NewTenant → ℕ → Tenant
tenant_row n id = record {
  id = id;
  name = n.name;
  whatsapp_phone_number_id = some n.whatsapp_phone_number_id;
  access_token = n.access_token;
  app_secret = n.app_secret;
  meta_catalog_id = n.meta_catalog_id;
  payment_gateway_provider = n.payment_gateway_provider;
  payment_gateway_key_id = n.payment_gateway_key_id;
  payment_gateway_api_key_ref = n.payment_gateway_api_key_ref;
  payment_gateway_webhook_secret = n.payment_gateway_webhook_secret;
  welcome_message_text = n.welcome_message_text;
  timezone = n.timezone;
  abandoned_cart_nudge_hours = n.abandoned_cart_nudge_hours;
  is_active = true;
  data_tier = n.data_tier;
  external_api_base_url = n.external_api_base_url;
  external_api_key = n.external_api_key;
  portal_password_hash = none;
}

-- `none` is the IntegrityError of UNIQUE(whatsapp_phone_number_id); the sequence has moved on.
unfoldable pub create_tenant : NewTenant → Database → Option Tenant × Database
unfolding tenant_row
create_tenant n d =
    if any_row (λ t. holds_text t.whatsapp_phone_number_id n.whatsapp_phone_number_id)
      d.tenants.rows
    then (none, record d { tenants = record d.tenants { next_id = suc d.tenants.next_id } })
    else (let d' = record d { tenants = insert_row (tenant_row n) d.tenants } in
        (get_tenant d.tenants.next_id d', d'))

unfoldable pub update_tenant_catalog_and_payment :
    ℕ
    → (meta_catalog_id payment_gateway_provider payment_gateway_key_id : Option String)
    → (payment_gateway_api_key_ref payment_gateway_webhook_secret : Option String)
    → (abandoned_cart_nudge_hours : Option ℕ) → Database
    → Database
update_tenant_catalog_and_payment tenant_id catalog provider key_id key secret hours d = record d {
  tenants =
      update_table (is_tenant tenant_id)
        (λ t. record t {
          meta_catalog_id = coalesce catalog t.meta_catalog_id;
          payment_gateway_provider = coalesce provider t.payment_gateway_provider;
          payment_gateway_key_id = coalesce key_id t.payment_gateway_key_id;
          payment_gateway_api_key_ref = coalesce key t.payment_gateway_api_key_ref;
          payment_gateway_webhook_secret = coalesce secret t.payment_gateway_webhook_secret;
          abandoned_cart_nudge_hours = or_else hours t.abandoned_cart_nudge_hours;
        })
        d.tenants;
}

unfoldable pub set_tenant_portal_password_hash : ℕ → String → Database → Database
set_tenant_portal_password_hash tenant_id password_hash d = record d {
  tenants =
      update_table (is_tenant tenant_id)
        (λ t. record t { portal_password_hash = some password_hash }) d.tenants;
}
