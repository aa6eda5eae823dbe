-- ===== src/Feed/Laws.antt =====
-- The feed of catalog/feed.py, read by the rules of CSV.
use Prim.Native.String.{◌++◌ as str_append}
use whatsapp_commerce_bot.Base.Int.{pos, ltb_ℤ}
use whatsapp_commerce_bot.Onboarding.{row_get}
use whatsapp_commerce_bot.Base.{
  ◌&&◌, ◌==◌, ap, Option, none, truthy, or_else, select, if◌then◌else◌, ℕ, ◌≡◌, refl, String, true,
  some, List, [], ◌∷◌, map, All,
}
use whatsapp_commerce_bot.Base.Csv.{read_csv, write_csv}
use whatsapp_commerce_bot.Base.Csv.Laws.{IsWide, read_csv-write_csv}
use whatsapp_commerce_bot.Db.{Database, Tenant, Product}
use whatsapp_commerce_bot.Db.Tenants.{get_tenant}
use whatsapp_commerce_bot.Db.Products.{get_active_products}
use whatsapp_commerce_bot.Feed.{
  public_base_url, numeric_text, either_text, feed_fieldnames, feed_row, feed, build_feed_csv,
}

map-IsWide : (base : String) (ps : List Product) → All IsWide (map (feed_row base) ps)
unfolding feed_row
map-IsWide base [] = tt
map-IsWide base (p ∷ ps) = (tt, map-IsWide base ps)

-- `a or b` of a text that may be missing.
abbrev pub first_of : Option String → String → String
first_of text other = if truthy text then or_else text "" else other

-- What a reader finds in a product's row, by the name of the column.
pub record IsRow (base : String) (p : Product) (row : List String) : Type 0 where
  pub id : row_get feed_fieldnames row "id" ≡ some (or_else p.catalog_retailer_id "")
  pub title : row_get feed_fieldnames row "title" ≡ some p.name
  pub description : row_get feed_fieldnames row "description" ≡ some (first_of p.description p.name)
  pub availability :
      row_get feed_fieldnames row "availability"
      ≡ some (if ltb_ℤ (pos 0) p.stock_quantity then "in stock" else "out of stock")
  pub condition : row_get feed_fieldnames row "condition" ≡ some "new"
  pub price :
      row_get feed_fieldnames row "price"
      ≡ some (str_append (numeric_text p.price) (str_append " " p.currency))
  pub link : row_get feed_fieldnames row "link" ≡ some (str_append base "/")
  pub image_link : row_get feed_fieldnames row "image_link" ≡ some (first_of p.image_url "")

-- Rows and products in step.
abbrev pub AreRows : String → List Product → List (List String) → Type 0
AreRows base [] [] = Unit
AreRows base [] (row ∷ rows) = ⊥
AreRows base (p ∷ ps) [] = ⊥
AreRows base (p ∷ ps) (row ∷ rows) = IsRow base p row × AreRows base ps rows

either_text-first_of : (o : Option String) (s : String) → either_text o s ≡ first_of o s
either_text-first_of none s = refl
either_text-first_of (some String.[]) s = refl
either_text-first_of (some (String.◌∷◌ c r)) s = refl

feed_row-IsRow : (base : String) (p : Product) → IsRow base p (feed_row base p)
unfolding feed_row row_get
feed_row-IsRow base p = record {
  id = refl;
  title = refl;
  description = ap (λ s. some s) (either_text-first_of p.description p.name);
  availability = refl;
  condition = refl;
  price = refl;
  link = refl;
  image_link = ap (λ s. some s) (either_text-first_of p.image_url "");
}

map-AreRows : (base : String) (ps : List Product) → AreRows base ps (map (feed_row base) ps)
map-AreRows base [] = tt
map-AreRows base (p ∷ ps) = (feed_row-IsRow base p, map-AreRows base ps)

-- The rows of the tenant that are active, in the order of the table.
abbrev pub on_sale : ℕ → Database → List Product
on_sale t d = select (λ p. (p.tenant_id == t) && p.is_active) d.products.rows

module _ (url base : String) (t : ℕ) (tenant : Tenant) (d : Database) where
  -- The feed of an active tenant, where the base URL is set, is a text from which the rules of CSV
  -- read the header and then, in order, a row for each of the tenant's active products and no other.
  -- In each row a reader finds, under the names of the columns, the product's catalog name, its name,
  -- its description or else its name, whether it is in stock, its price with the currency, the shop's
  -- link and its image, each as it stands in the database, commas, quotes and line ends included.
  pub read_csv-build_feed_csv :
      get_tenant t d ≡ some tenant
      → tenant.is_active ≡ true
      → public_base_url url ≡ some base
      → (text : String) × (build_feed_csv url t d ≡ feed text)
        × ((rows : List (List String)) × (read_csv text ≡ some (feed_fieldnames ∷ rows))
            × AreRows base (on_sale t d) rows)
  unfolding build_feed_csv get_active_products
  read_csv-build_feed_csv found active set = (
    write_csv (feed_fieldnames ∷ map (feed_row base) (on_sale t d)),
    rw (found, build_feed_csv) (rw active (rw set refl)),
    (
      map (feed_row base) (on_sale t d),
      read_csv-write_csv (feed_fieldnames ∷ map (feed_row base) (on_sale t d))
          (tt, map-IsWide base (on_sale t d)),
      map-AreRows base (on_sale t d),
    ),
  )
