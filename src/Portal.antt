-- ===== src/Portal.antt =====
-- The merchant portal: what its routes answer, and the data that they read from a request.
pub mod Cookie
pub mod Password
pub mod Guard
pub mod Products
pub mod Coupons
pub mod Orders
pub mod Settings
pub mod Routes
pub mod Isolation
pub mod Signed
pub mod Writes
use whatsapp_commerce_bot.Base.{ℕ, String, Bool, Option, none, some, List, or_else}
use whatsapp_commerce_bot.Base.Text.{strip}
use whatsapp_commerce_bot.Db.{Tenant, Product, Order, Coupon, Status}

-- A form's answers to `form.get`.
abbrev pub Form : Type 0
Form = String → Option String

-- `(form.get(key) or "").strip()`
unfoldable pub field : Form → String → String
field form key = strip (or_else (form key) "")

-- `value or None`
abbrev pub or_null : String → Option String
or_null String.[] = none
or_null (String.◌∷◌ c s) = some (String.◌∷◌ c s)

-- The entries of `errors`, by what each says.
pub data FormError : Type 0 where
  name_required bad_price bad_stock : FormError
  code_required bad_discount_type bad_discount_value over_hundred_percent duplicate_code : FormError
  bad_provider bad_nudge_hours : FormError
  wrong_password short_password unequal_passwords : FormError
  no_file not_utf8 no_header : FormError
  phone_number_required number_taken : FormError
  entry_bad_price entry_bad_stock : (product_name : String) → FormError
  row_name_required row_bad_price row_bad_stock : ℕ → FormError

-- A line of an order's page: the product's name, the quantity, the unit price and the total.
pub record OrderLine : Type 0 where
  pub product_name : String
  pub quantity : ℕ
  pub unit_price : ℕ
  pub line_total : ℕ

-- What a template is given, but for the text that is the same on every page.
pub data Content : Type 0 where
  login_page : Content
  product_table : List Product → Content
  product_form : Option Product → Content
  import_form : (imported_count : Option ℕ) → Content
  coupon_table : List Coupon → Content
  coupon_form : Content
  order_table : List Order → (customer_names : List (String × String)) → Content
  order_page :
      Order → List OrderLine → (customer_name : Option String) → (can_fulfill : Bool) → Content
  settings_page : Option Tenant → (saved password_saved : Bool) → Content

-- A redirect (303), a page (200), a form with its errors (400), a refused login (401), a missing row
-- (404), and an exception that no route catches (500).
pub data Answer : Type 0 where
  redirect : String → Answer
  page : Content → Answer
  refused : List FormError → Answer
  denied not_found crashed : Answer
