-- ===== src/Db/Products/Created.antt =====
-- The product that `create_product` of db/repository.py inserts and names.
use whatsapp_commerce_bot.Base.{
  ℕ, suc, ◌<◌, ◌≡◌, refl, ap, ◌∙◌, String, Bool, true, false, some, List, [], ◌∷◌, ◌++◌, arith, All,
  All-mono,
}
use Prim.Native.String.{◌++◌ as str_append}
use whatsapp_commerce_bot.Base.Numeral.{decimal}
use whatsapp_commerce_bot.Base.Table.{
  IsBelow, select_one, update_where, select_one-append, select_one-singleton, select_one-none,
}
use whatsapp_commerce_bot.Db.{Database, Product}
use whatsapp_commerce_bot.Db.Products.{
  is_product, catalog_retailer_id_of, get_product, ProductFields, product_row, create_product,
}

abbrev id_of : Product → ℕ
id_of p = p.id

-- Rows that an update does not choose stay, and the row behind them is changed.
update_where-last :
    (p : Product → Bool) (f : Product → Product) (rows : List Product) (r : Product)
    → All (λ x. p x ≡ false) rows
    → p r ≡ true
    → update_where p f (rows ++ r ∷ []) ≡ rows ++ f r ∷ []
unfolding update_where
update_where-last p f [] r h e = rw e refl
update_where-last p f (x ∷ rows) r (h, hs) e =
    rw h (ap (λ ys. x ∷ ys) (update_where-last p f rows r hs e))

module _ (t : ℕ) (currency : String) (f : ProductFields) (d : Database) where
  abbrev pub created : Product
  created = record {
    id = d.products.next_id;
    tenant_id = t;
    name = f.name;
    price = f.price;
    currency = currency;
    description = f.description;
    image_url = f.image_url;
    sku = f.sku;
    stock_quantity = f.stock_quantity;
    category = f.category;
    is_active = true;
    catalog_retailer_id =
        some
          (str_append (str_append "t" (decimal t)) (str_append "-p" (decimal d.products.next_id)));
  }

  unused :
      IsBelow id_of d.products.next_id d.products.rows
      → All (λ r. is_product t d.products.next_id r ≡ false) d.products.rows
  unused below =
      All-mono (λ r. id_of r < d.products.next_id) (λ r. is_product t d.products.next_id r ≡ false)
        (λ r lt. ground arith) d.products.rows below

  own : is_product t d.products.next_id created ≡ true
  own = ground arith

  -- A new product has the next id, the tenant's id, the columns that are given and the currency; it is
  -- active, and the name that Meta's catalog knows it by is "t", the tenant's id, "-p" and its own id.
  -- It stands behind the old products, it is what the call returns, and all else in the database but
  -- the next id is as it was. The ids in use are below the next one.
  pub create_product-created :
      IsBelow id_of d.products.next_id d.products.rows
      → ((create_product t currency f d).1 ≡ record d {
        products = record {
          rows = d.products.rows ++ created ∷ [];
          next_id = suc d.products.next_id;
        };
      })
        × ((create_product t currency f d).0 ≡ some created)
  unfolding create_product get_product catalog_retailer_id_of
  create_product-created below =
      let test = is_product t d.products.next_id in
      let rows =
        update_where-last test
          (λ (p : Product). record p {
            catalog_retailer_id = some (catalog_retailer_id_of t d.products.next_id);
          })
          d.products.rows (product_row t currency f d.products.next_id) (unused below) own in
      (
        ap (λ rs. record d { products = record { rows = rs; next_id = suc d.products.next_id } })
            rows,
        ap (select_one test) rows
            ∙ select_one-append test d.products.rows (created ∷ [])
            ∙ rw (select_one-none test d.products.rows (unused below))
                (select_one-singleton test created own),
      )
