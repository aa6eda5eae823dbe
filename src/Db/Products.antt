-- ===== src/Db/Products.antt =====
-- db/repository.py, the products: reads scoped by tenant, the insert that names the row in Meta's
-- catalog, and the portal's updates.
pub mod Created
use Prim.Native.String.{◌++◌ as str_append}
use whatsapp_commerce_bot.Base.{ℕ, String, Bool, true, ◌&&◌, Option, none, some, List, ◌==◌, select}
use whatsapp_commerce_bot.Base.Int.{ℤ}
use whatsapp_commerce_bot.Base.Numeral.{decimal}
use whatsapp_commerce_bot.Base.Table.{select_one, update_table, insert_row}
use whatsapp_commerce_bot.Db.{Database, Product}
use whatsapp_commerce_bot.Db.Tenants.{holds_text}

abbrev pub is_product : ℕ → ℕ → Product → Bool
is_product tenant_id product_id p = (p.tenant_id == tenant_id) && (p.id == product_id)

-- `_catalog_retailer_id`
unfoldable pub catalog_retailer_id_of : ℕ → ℕ → String
catalog_retailer_id_of tenant_id product_id =
    str_append (str_append "t" (decimal tenant_id)) (str_append "-p" (decimal product_id))

unfoldable pub get_product : ℕ → ℕ → Database → Option Product
get_product tenant_id product_id d = select_one (is_product tenant_id product_id) d.products.rows

unfoldable pub get_product_by_retailer_id : ℕ → String → Database → Option Product
get_product_by_retailer_id tenant_id retailer_id d =
    select_one (λ p. (p.tenant_id == tenant_id) && holds_text p.catalog_retailer_id retailer_id)
      d.products.rows

unfoldable pub get_active_products : ℕ → Database → List Product
get_active_products tenant_id d =
    select (λ p. (p.tenant_id == tenant_id) && p.is_active) d.products.rows

unfoldable pub get_all_products : ℕ → Database → List Product
get_all_products tenant_id d = select (λ p. p.tenant_id == tenant_id) d.products.rows

-- The columns that the product forms and the CSV import write.
pub record ProductFields : Type 0 where
  pub name : String
  pub price : ℕ
  pub description : Option String
  pub image_url : Option String
  pub sku : Option String
  pub stock_quantity : ℤ
  pub category : Option String

abbrev pub product_row : ℕ → String → ProductFields → ℕ → Product
product_row tenant_id currency f id = record {
  id = id;
  tenant_id = tenant_id;
  name = f.name;
  price = f.price;
  currency = currency;
  description = f.description;
  image_url = f.image_url;
  sku = f.sku;
  stock_quantity = f.stock_quantity;
  category = f.category;
  is_active = true;
  catalog_retailer_id = none;
}

-- The INSERT, and the UPDATE that derives the catalog id from the row's new id.
unfoldable pub create_product : ℕ → String → ProductFields → Database → Option Product × Database
create_product tenant_id currency f d =
    let new_id = d.products.next_id in
    let named = λ (p : Product). record p {
      catalog_retailer_id = some (catalog_retailer_id_of tenant_id new_id);
    } in
    let inserted = insert_row (product_row tenant_id currency f) d.products in
    let d' = record d { products = update_table (is_product tenant_id new_id) named inserted } in
    (get_product tenant_id new_id d', d')

unfoldable pub update_product_stock : ℕ → ℕ → ℤ → Database → Database
update_product_stock tenant_id product_id stock_quantity d = record d {
  products =
      update_table (is_product tenant_id product_id)
        (λ p. record p { stock_quantity = stock_quantity }) d.products;
}

unfoldable pub update_product : ℕ → ℕ → ProductFields → Database → Option Product × Database
update_product tenant_id product_id f d =
    let d' = record d {
      products =
          update_table (is_product tenant_id product_id)
            (λ p. record p {
              name = f.name;
              price = f.price;
              description = f.description;
              image_url = f.image_url;
              sku = f.sku;
              stock_quantity = f.stock_quantity;
              category = f.category;
            })
            d.products;
    } in
    (get_product tenant_id product_id d', d')

unfoldable pub set_product_active : ℕ → ℕ → Bool → Database → Database
set_product_active tenant_id product_id is_active d = record d {
  products =
      update_table (is_product tenant_id product_id) (λ p. record p { is_active = is_active })
        d.products;
}
