-- ===== src/Admin/Wizard.antt =====
-- admin/onboarding_wizard.py: the wizard that takes a new tenant in, with its first products.
pub mod Outcome
pub mod Insert
pub mod Made
pub mod Answers
pub mod Errors
use whatsapp_commerce_bot.Base.{
  ℕ, zero, suc, String, Bool, true, false, ◌&&◌, not, Option, none, some, List, [], ◌∷◌, ◌++◌,
  is_empty, length, str_eq, ltb, or_else, if◌then◌else◌,
}
use whatsapp_commerce_bot.Base.Int.{ℤ, pos, negsuc}
use whatsapp_commerce_bot.Base.Text.{strip}
use whatsapp_commerce_bot.Base.Decimal.{Decimal, decimal_of}
use whatsapp_commerce_bot.Base.Numeral.{int}
use whatsapp_commerce_bot.Db.{Tenant}
use whatsapp_commerce_bot.Db.Tenants.{NewTenant, create_tenant}
use whatsapp_commerce_bot.Db.Products.{create_product}
use whatsapp_commerce_bot.World.{Action, pure, call, ◌>>=◌, ◌>>◌, on_some}
use whatsapp_commerce_bot.Feed.{feed_url}
use whatsapp_commerce_bot.Onboarding.{Parsed, Import, parse_csv_products}
use whatsapp_commerce_bot.Portal.{
  Form, field, or_null, FormError, name_required, bad_provider, bad_nudge_hours,
  phone_number_required, number_taken, entry_bad_price, entry_bad_stock,
}
use whatsapp_commerce_bot.Portal.Guard.{Host}
use whatsapp_commerce_bot.Portal.Products.{is_blank, error_if, parsed_columns, currency}
use whatsapp_commerce_bot.Admin.{Answer, page, forbidden, crashed, refused, wizard_form, onboarded}

-- `form.get`, `form.getlist`, and the text of the chosen CSV file, if one is chosen and it decodes.
pub record WizardForm : Type 0 where
  pub get : Form
  pub getlist : String → List String
  pub csv_file : Option (Option String)

-- `_at`
unfoldable pub at : List String → ℕ → String
at [] i = ""
at (s ∷ ss) zero = strip s
at (s ∷ ss) (suc i) = at ss i

-- A row of the manual entry: nothing, for a row without a name, a product, or what is wrong with it.
pub data Entered : Type 0 where
  skipped : Entered
  product : Parsed → Entered
  faulty : FormError → Entered

abbrev stock_entered : String → Option ℤ
stock_entered s = if is_blank s then some (pos 0) else int s

module _ (form : WizardForm) where
  abbrev column : String → ℕ → String
  column key i = at (form.getlist key) i

  abbrev with_stock : ℕ → String → Decimal → Option ℤ → Entered
  with_stock i name price none = faulty (entry_bad_stock name)
  with_stock i name price (some stock) = product (record {
    name = name;
    price = price;
    description = or_null (column "product_description" i);
    image_url = or_null (column "product_image_url" i);
    sku = or_null (column "product_sku" i);
    stock_quantity = stock;
    category = or_null (column "product_category" i);
  })

  abbrev with_price : ℕ → String → Option Decimal → Entered
  with_price i name none = faulty (entry_bad_price name)
  with_price i name (some price) =
      with_stock i name price (stock_entered (column "product_stock_quantity" i))

  unfoldable pub read_entry : ℕ → Entered
  read_entry i =
      let name = column "product_name" i in
      if is_blank name then skipped else with_price i name (decimal_of (column "product_price" i))

  abbrev add_entry : Entered → Import → Import
  add_entry skipped rest = rest
  add_entry (product p) rest = record rest { products = p ∷ rest.products }
  add_entry (faulty e) rest = record rest { errors = e ∷ rest.errors }

  -- The entries from the i-th on, one for each of the names that are left.
  unfoldable pub read_entries : ℕ → List String → Import
  unfolding read_entry
  read_entries i [] = record { products = []; errors = [] }
  read_entries i (n ∷ ns) = add_entry (read_entry i) (read_entries (suc i) ns)

  -- `_parse_manual_products`
  unfoldable pub parse_manual_products : Import
  unfolding read_entries
  parse_manual_products = read_entries 0 (form.getlist "product_name")

  -- The products by the mode of their entry; `none` is a csv.Error.
  unfoldable pub read_products : Option Import
  read_products =
      if str_eq (or_else (form.get "product_entry_mode") "") "csv"
      then elim form.csv_file [
        | none ↦ some (record { products = []; errors = [] })
        | some content ↦ parse_csv_products content
      ]
      else some parse_manual_products

-- `_parse_nudge_hours`: the hours, and the errors; 2 where the field is blank.
abbrev pub hours_of : Option ℤ → ℕ × List FormError
hours_of none = (2, bad_nudge_hours ∷ [])
hours_of (some (negsuc n)) = (2, bad_nudge_hours ∷ [])
hours_of (some (pos zero)) = (2, bad_nudge_hours ∷ [])
hours_of (some (pos (suc n))) = (suc n, [])

unfoldable pub wizard_hours : String → ℕ × List FormError
wizard_hours raw = if is_blank (strip raw) then (2, []) else hours_of (int (strip raw))

-- The errors of the tenant's own fields, in their order.
unfoldable pub wizard_errors : Form → List FormError
wizard_errors form =
    let provider = field form "payment_gateway_provider" in
    error_if (is_blank (field form "name")) name_required
    ++ (error_if (is_blank (field form "whatsapp_phone_number_id")) phone_number_required
        ++ (error_if (not (is_blank provider) && not (str_eq provider "razorpay")) bad_provider
            ++ (wizard_hours (or_else (form "abandoned_cart_nudge_hours") "")).1))

-- `x.strip() or "Asia/Kolkata"`
abbrev pub timezone_of : String → String
timezone_of String.[] = "Asia/Kolkata"
timezone_of (String.◌∷◌ c s) = String.◌∷◌ c s

unfoldable pub new_tenant : Form → NewTenant
new_tenant form = record {
  name = field form "name";
  whatsapp_phone_number_id = field form "whatsapp_phone_number_id";
  access_token = or_null (field form "access_token");
  app_secret = or_null (field form "app_secret");
  welcome_message_text = or_null (field form "welcome_message_text");
  timezone = timezone_of (field form "timezone");
  abandoned_cart_nudge_hours = (wizard_hours (or_else (form "abandoned_cart_nudge_hours") "")).0;
  meta_catalog_id = or_null (field form "meta_catalog_id");
  payment_gateway_provider = or_null (field form "payment_gateway_provider");
  payment_gateway_key_id = or_null (field form "payment_gateway_key_id");
  payment_gateway_api_key_ref = or_null (field form "payment_gateway_api_key_ref");
  payment_gateway_webhook_secret = or_null (field form "payment_gateway_webhook_secret");
  data_tier = "tier1";
  external_api_base_url = none;
  external_api_key = none;
}

module _ (host : Host) where
  -- The new tenant's products, one after the other; one that the server refuses is an exception, and
  -- those before it stay.
  unfoldable pub create_products : ℕ → List Parsed → (done : Answer) → Action Answer
  create_products tenant_id [] done = pure done
  create_products tenant_id (p ∷ rest) done =
      on_some (parsed_columns host p (host.numeric p.price)) (pure crashed)
        λ f. (do call (create_product tenant_id currency f); create_products tenant_id rest done)

module _ (host : Host) (public_base_url : String) where
  -- `none` is the IntegrityError of a number that is in use.
  unfoldable pub onboard : NewTenant → List Parsed → Action Answer
  onboard n products = do
    created ← call (create_tenant n)
    on_some created (pure (refused (number_taken ∷ []))) λ t.
        create_products host t.id products
          (page (onboarded t (length products) (feed_url public_base_url t.id)))

  -- The column INTEGER refuses more hours.
  unfoldable pub accept_form : NewTenant → List Parsed → Action Answer
  accept_form n products =
      if ltb n.abandoned_cart_nudge_hours 2147483648 then onboard n products else pure crashed

  unfoldable pub submit_wizard : WizardForm → Option Import → Action Answer
  submit_wizard form none = pure crashed
  submit_wizard form (some read) =
      let errors = wizard_errors form.get ++ read.errors in
      if is_empty errors
      then accept_form (new_tenant form.get) read.products
      else pure (refused errors)

module _ (host : Host) (admin_secret public_base_url : String) where
  -- `onboard_tenant_wizard_submit`
  unfoldable pub onboard_tenant_wizard_submit : WizardForm → Action Answer
  onboard_tenant_wizard_submit form =
      if str_eq (or_else (form.get "admin_secret") "") admin_secret
      then submit_wizard host public_base_url form (read_products form)
      else pure forbidden

unfoldable pub onboard_tenant_wizard_form : Action Answer
onboard_tenant_wizard_form = pure (page wizard_form)
