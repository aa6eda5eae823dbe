-- ===== src/Portal/Products.antt =====
-- portal/products.py: the merchant's products, the form that adds and edits them, and the CSV import.
pub mod Outcome
use whatsapp_commerce_bot.Base.{
  ℕ, String, Bool, true, false, ◌&&◌, not, Option, none, some, List, [], ◌∷◌, ◌++◌, is_empty,
  length, if◌then◌else◌,
}
use whatsapp_commerce_bot.Base.Int.{ℤ, pos}
use whatsapp_commerce_bot.Base.Decimal.{Decimal, decimal_of, lt_zero}
use whatsapp_commerce_bot.Base.Numeral.{int}
use whatsapp_commerce_bot.Db.{Database, Tenant, Product}
use whatsapp_commerce_bot.Db.Products.{
  ProductFields, get_product, get_all_products, create_product, update_product, set_product_active,
}
use whatsapp_commerce_bot.World.{
  Env, World, Action, pure, query, call, execute, ◌>>=◌, ◌>>◌, on_some,
}
use whatsapp_commerce_bot.Portal.{
  Answer, redirect, page, refused, not_found, crashed, Form, field, or_null, FormError,
  name_required, bad_price, bad_stock, no_file, product_table, product_form, import_form,
}
use whatsapp_commerce_bot.Onboarding.{Parsed, Import, parse_csv_products}
use whatsapp_commerce_bot.Portal.Guard.{Host, fits_integer, signed_in, at_id}

-- `_product_form_values`
pub record ProductForm : Type 0 where
  pub name : String
  pub price : String
  pub description : String
  pub image_url : String
  pub sku : String
  pub stock_quantity : String
  pub category : String

unfoldable pub product_form_values : Form → ProductForm
product_form_values form = record {
  name = field form "name";
  price = field form "price";
  description = field form "description";
  image_url = field form "image_url";
  sku = field form "sku";
  stock_quantity = field form "stock_quantity";
  category = field form "category";
}

abbrev pub is_blank : String → Bool
is_blank String.[] = true
is_blank (String.◌∷◌ c s) = false

-- The price, if it is a number that is not below zero; a NaN raises InvalidOperation as well.
abbrev at_least_zero : Decimal → Option Bool → Option Decimal
at_least_zero d (some false) = some d
at_least_zero d (some true) = none
at_least_zero d none = none

abbrev checked_price : Option Decimal → Option Decimal
checked_price none = none
checked_price (some d) = at_least_zero d (lt_zero d)

unfoldable pub read_price : String → Option Decimal
read_price s = checked_price (decimal_of s)

-- A blank quantity is 0; `none` is a ValueError.
unfoldable pub read_stock : String → Option ℤ
read_stock s = if is_blank s then some (pos 0) else int s

abbrev pub error_if : Bool → FormError → List FormError
error_if true e = e ∷ []
error_if false e = []

abbrev pub is_none {ℓ} : {A : Type ℓ} → Option A → Bool
is_none none = true
is_none (some a) = false

-- `_validate_product_form`: the errors, in their order. The text "" is no number, so it needs no test
-- of its own.
unfoldable pub product_form_errors : ProductForm → List FormError
product_form_errors v =
    error_if (is_blank v.name) name_required
    ++ (error_if (is_none (read_price v.price)) bad_price
        ++ error_if (is_none (read_stock v.stock_quantity)) bad_stock)

-- The columns to write, where the server takes the price and the stock.
abbrev columns : ProductForm → Option ℕ → ℤ → Option ProductFields
columns v none stock = none
columns v (some paise) stock =
    if fits_integer stock
    then some (record {
      name = v.name;
      price = paise;
      description = or_null v.description;
      image_url = or_null v.image_url;
      sku = or_null v.sku;
      stock_quantity = stock;
      category = or_null v.category;
    })
    else none

abbrev read_columns : Host → ProductForm → Option Decimal → Option ℤ → Option ProductFields
read_columns host v (some price) (some stock) = columns v (host.numeric price) stock
read_columns host v (some price) none = none
read_columns host v none stock = none

unfoldable pub product_columns : Host → ProductForm → Option ProductFields
product_columns host v = read_columns host v (read_price v.price) (read_stock v.stock_quantity)

-- A write that the server refuses is an exception, and nothing is written.
abbrev write_product :
    Option ProductFields → (ProductFields → Database → Option Product × Database) → Action Answer
write_product fields write =
    on_some fields (pure crashed) λ f. (do call (write f); pure (redirect "/portal/products"))

-- INR is the currency of `create_product`.
abbrev pub currency : String
currency = "INR"

module _ (host : Host) where
  -- The errors of the form are shown, or the product is written.
  unfoldable pub submit_product :
      ProductForm → (ProductFields → Database → Option Product × Database) → Action Answer
  submit_product v write =
      if is_empty (product_form_errors v)
      then write_product (product_columns host v) write
      else pure (refused (product_form_errors v))

  -- What the server makes of a product that was read from a file.
  abbrev pub parsed_columns : Parsed → Option ℕ → Option ProductFields
  parsed_columns p none = none
  parsed_columns p (some paise) =
      if fits_integer p.stock_quantity
      then some (record {
        name = p.name;
        price = paise;
        description = p.description;
        image_url = p.image_url;
        sku = p.sku;
        stock_quantity = p.stock_quantity;
        category = p.category;
      })
      else none

  -- The products of a file, one after the other; one that the server refuses is an exception, and
  -- those before it stay.
  unfoldable pub create_all : ℕ → (imported : ℕ) → List Parsed → Action Answer
  create_all tenant_id imported [] = pure (page (import_form (some imported)))
  create_all tenant_id imported (p ∷ rest) =
      on_some (parsed_columns p (host.numeric p.price)) (pure crashed)
        λ f. (do call (create_product tenant_id currency f); create_all tenant_id imported rest)

  abbrev pub import_products : ℕ → Option Import → Action Answer
  import_products tenant_id none = pure crashed
  import_products tenant_id (some read) =
      if is_empty read.errors
      then create_all tenant_id (length read.products) read.products
      else pure (refused read.errors)

  -- A file that was chosen, by the text that its bytes decode to, if they do.
  unfoldable pub import_upload : ℕ → Option (Option String) → Action Answer
  import_upload tenant_id none = pure (refused (no_file ∷ []))
  import_upload tenant_id (some content) = import_products tenant_id (parse_csv_products content)

-- A product of the tenant, or 404.
unfoldable pub with_product : Tenant → ℤ → (ℕ → Product → Action Answer) → Action Answer
with_product t product_id route =
    at_id product_id
      λ i. (do product ← query (get_product t.id i); on_some product (pure not_found) (route i))

module _ (host : Host) (env : Env) (cookie : Option String) where
  unfoldable pub products_list : Action Answer
  products_list =
      signed_in host env cookie
        λ t. (do products ← query (get_all_products t.id); pure (page (product_table products)))

  unfoldable pub product_new_form : Action Answer
  product_new_form = signed_in host env cookie λ t. pure (page (product_form none))

  unfoldable pub product_new_submit : Form → Action Answer
  product_new_submit form =
      signed_in host env cookie
        λ t. submit_product host (product_form_values form) (create_product t.id currency)

  unfoldable pub product_edit_form : ℤ → Action Answer
  product_edit_form product_id =
      signed_in host env cookie
        λ t. with_product t product_id λ i p. pure (page (product_form (some p)))

  unfoldable pub product_edit_submit : ℤ → Form → Action Answer
  product_edit_submit product_id form = signed_in host env cookie λ t.
      with_product t product_id
        λ i p. submit_product host (product_form_values form) (update_product t.id i)

  unfoldable pub product_toggle_active : ℤ → Action Answer
  product_toggle_active product_id = signed_in host env cookie λ t. with_product t product_id λ i p.
      (do execute (set_product_active t.id i (not p.is_active)); pure (redirect "/portal/products"))

  unfoldable pub products_import_form : Action Answer
  products_import_form = signed_in host env cookie λ t. pure (page (import_form none))

  unfoldable pub products_import_submit : Option (Option String) → Action Answer
  products_import_submit upload = signed_in host env cookie λ t. import_upload host t.id upload
