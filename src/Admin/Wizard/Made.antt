-- ===== src/Admin/Wizard/Made.antt =====
-- The products that the wizard of admin/onboarding_wizard.py inserts for a new tenant.
use Prim.Native.String.{◌++◌ as str_append}
use whatsapp_commerce_bot.Base.{
  ℕ, suc, ◌<◌, ◌≡◌, refl, sym, ap, ◌∙◌, ◌⊎◌, inl, inr, Bool, true, false, Option, none, some, List,
  [], ◌∷◌, ◌++◌, append_nil, append_assoc, arith, subst, All-append, All-mono, if◌then◌else◌,
}
use whatsapp_commerce_bot.Base.Numeral.{decimal}
use whatsapp_commerce_bot.Base.Table.{IsBelow}
use whatsapp_commerce_bot.Db.{Database, Product}
use whatsapp_commerce_bot.Db.Products.{ProductFields, create_product}
use whatsapp_commerce_bot.Db.Products.Created.{created, create_product-created}
use whatsapp_commerce_bot.World.{World, Action, pure, call, ◌>>=◌, on_some}
use whatsapp_commerce_bot.Onboarding.{Parsed}
use whatsapp_commerce_bot.Portal.Guard.{Host, fits_integer}
use whatsapp_commerce_bot.Portal.Products.{parsed_columns, currency}
use whatsapp_commerce_bot.Admin.{Answer, crashed}
use whatsapp_commerce_bot.Admin.Wizard.{create_products}

abbrev pub product_id_of : Product → ℕ
product_id_of p = p.id

-- The ids of the products are below the next one.
abbrev pub HasRoom : Database → Type 0
HasRoom d = IsBelow product_id_of d.products.next_id d.products.rows

-- All but the products is as it was.
pub record SameRest (w w' : World) : Type 0 where
  pub tenants : w'.db.tenants ≡ w.db.tenants
  pub orders : w'.db.orders ≡ w.db.orders
  pub order_items : w'.db.order_items ≡ w.db.order_items
  pub coupons : w'.db.coupons ≡ w.db.coupons
  pub customers : w'.db.customers ≡ w.db.customers
  pub sessions : w'.sessions ≡ w.sessions
  pub sent : w'.sent ≡ w.sent

by_some :
    {A B : Type 0} (P : B × World → Type 0) (w : World) (o : Option A) (m : Action B)
    (f : A → Action B)
    → (o ≡ none → P (m w))
    → ((a : A) → o ≡ some a → P (f a w))
    → P (on_some o m f w)
unfolding on_some
by_some P w none m f h k = h refl
by_some P w (some a) m f h k = k a refl

module _ (host : Host) (tenant_id : ℕ) where
  -- The row of a product that was entered: the tenant's, active, and with what was entered in it.
  pub record IsProduct (p : Parsed) (row : Product) : Type 0 where
    pub tenant : row.tenant_id ≡ tenant_id
    pub name : row.name ≡ p.name
    pub price : host.numeric p.price ≡ some row.price
    pub in_rupees : row.currency ≡ "INR"
    pub description : row.description ≡ p.description
    pub image_url : row.image_url ≡ p.image_url
    pub sku : row.sku ≡ p.sku
    pub stock_quantity : row.stock_quantity ≡ p.stock_quantity
    pub category : row.category ≡ p.category
    pub active : row.is_active ≡ true
    pub retailer_id :
        row.catalog_retailer_id
        ≡ some (str_append (str_append "t" (decimal tenant_id)) (str_append "-p" (decimal row.id)))

  abbrev pub AreProducts : List Parsed → List Product → Type 0
  AreProducts [] [] = Unit
  AreProducts [] (row ∷ rows) = ⊥
  AreProducts (p ∷ ps) [] = ⊥
  AreProducts (p ∷ ps) (row ∷ rows) = IsProduct p row × AreProducts ps rows

  -- The price or the stock does not fit its column.
  abbrev pub IsRefused : Parsed → Type 0
  IsRefused p = (host.numeric p.price ≡ none) ⊎ (fits_integer p.stock_quantity ≡ false)

  if_fits : (b : Bool) (f g : ProductFields) → (if b then some f else none) ≡ some g → f ≡ g
  if_fits true f g e = cc
  if_fits false f g e = cc

  abbrev columns_of : Parsed → ℕ → ProductFields
  columns_of p paise = record {
    name = p.name;
    price = paise;
    description = p.description;
    image_url = p.image_url;
    sku = p.sku;
    stock_quantity = p.stock_quantity;
    category = p.category;
  }

  columns-IsProduct :
      (p : Parsed) (f : ProductFields) (d : Database) (o : Option ℕ)
      → host.numeric p.price ≡ o
      → parsed_columns host p o ≡ some f
      → IsProduct p (created tenant_id currency f d)
  columns-IsProduct p f d none price e = cc
  columns-IsProduct p f d (some paise) price e =
      subst (λ g. IsProduct p (created tenant_id currency g d))
        (if_fits (fits_integer p.stock_quantity) (columns_of p paise) f e)
        (record {
          tenant = refl;
          name = refl;
          price = price;
          in_rupees = refl;
          description = refl;
          image_url = refl;
          sku = refl;
          stock_quantity = refl;
          category = refl;
          active = refl;
          retailer_id = refl;
        })

  if_refused : (b : Bool) (f : ProductFields) → (if b then some f else none) ≡ none → b ≡ false
  if_refused true f e = cc
  if_refused false f e = refl

  columns-IsRefused :
      (p : Parsed) (o : Option ℕ)
      → host.numeric p.price ≡ o
      → parsed_columns host p o ≡ none
      → IsRefused p
  columns-IsRefused p none price e = inl price
  columns-IsRefused p (some paise) price e =
      inr (if_refused (fits_integer p.stock_quantity) (columns_of p paise) e)

  -- All products are made, or those before one that the server refuses.
  pub data Made (done : Answer) (w : World) (ps : List Parsed) : Answer × World → Type 0 where
    all_made :
        (w' : World) (rows : List Product)
        → AreProducts ps rows
        → w'.db.products.rows ≡ w.db.products.rows ++ rows
        → SameRest w w'
        → Made done w ps (done, w')
    one_refused :
        (before : List Parsed) (p : Parsed) (after : List Parsed) (w' : World) (rows : List Product)
        → ps ≡ before ++ p ∷ after
        → IsRefused p
        → AreProducts before rows
        → w'.db.products.rows ≡ w.db.products.rows ++ rows
        → SameRest w w'
        → Made done w ps (crashed, w')

  same : {w : World} → SameRest w w
  same = record {
    tenants = refl;
    orders = refl;
    order_items = refl;
    coupons = refl;
    customers = refl;
    sessions = refl;
    sent = refl;
  }

  module _ (f : ProductFields) (w : World) where
    after_product : World
    after_product = record w { db = (create_product tenant_id currency f w.db).1 }

    new_product : Product
    new_product = created tenant_id currency f w.db

    after_product-rows :
        HasRoom w.db → after_product.db.products.rows ≡ w.db.products.rows ++ new_product ∷ []
    unfolding after_product new_product
    after_product-rows room =
        ap (λ (d : Database). d.products.rows)
          (create_product-created tenant_id currency f w.db room).0

    after_product-HasRoom : HasRoom w.db → HasRoom after_product.db
    unfolding after_product new_product create_product
    after_product-HasRoom room =
        subst (IsBelow product_id_of (suc w.db.products.next_id)) (sym (after_product-rows room)) (
          All-append (λ r. product_id_of r < suc w.db.products.next_id) w.db.products.rows
            (new_product ∷ [])
            (All-mono (λ r. product_id_of r < w.db.products.next_id)
              (λ r. product_id_of r < suc w.db.products.next_id) (λ r lt. omega arith)
              w.db.products.rows room)
            (omega arith, tt))

    after_product-SameRest : {w' : World} → SameRest after_product w' → SameRest w w'
    unfolding after_product create_product
    after_product-SameRest s = record {
      tenants = s.tenants;
      orders = s.orders;
      order_items = s.order_items;
      coupons = s.coupons;
      customers = s.customers;
      sessions = s.sessions;
      sent = s.sent;
    }

    rows-behind :
        HasRoom w.db
        → (rows rows' : List Product) → rows' ≡ after_product.db.products.rows ++ rows
        → rows' ≡ w.db.products.rows ++ new_product ∷ rows
    rows-behind room rows rows' e =
        e
        ∙ ap (λ rs. rs ++ rows) (after_product-rows room)
        ∙ append_assoc w.db.products.rows (new_product ∷ []) rows

  pub create_products-Made :
      (ps : List Parsed) (done : Answer) (w : World)
      → HasRoom w.db
      → Made done w ps (create_products host tenant_id ps done w)
  unfolding create_products pure call ◌>>=◌ after_product new_product
  create_products-Made [] done w room = all_made w [] tt (sym (append_nil w.db.products.rows)) same
  create_products-Made (p ∷ ps) done w room =
      by_some (Made done w (p ∷ ps)) w (parsed_columns host p (host.numeric p.price)) _ _
        (λ e.
          one_refused [] p ps w [] refl (columns-IsRefused p (host.numeric p.price) refl e) tt
            (sym (append_nil w.db.products.rows)) same)
        (λ f e.
          onto f (columns-IsProduct p f w.db (host.numeric p.price) refl e)
            (create_products-Made ps done (after_product f w) (after_product-HasRoom f w room)))
    where
      onto :
          (f : ProductFields)
          → IsProduct p (new_product f w)
          → {r : Answer × World} → Made done (after_product f w) ps r
          → Made done w (p ∷ ps) r
      onto f is (all_made w' rows right at s) =
          all_made w' (new_product f w ∷ rows) (is, right) (rows-behind f w room rows _ at)
            (after_product-SameRest f w s)
      onto f is (one_refused before q after w' rows split refused right at s) =
          one_refused (p ∷ before) q after w' (new_product f w ∷ rows) (ap (λ qs. p ∷ qs) split)
            refused (is, right) (rows-behind f w room rows _ at) (after_product-SameRest f w s)
