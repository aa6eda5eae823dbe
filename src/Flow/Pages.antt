-- ===== src/Flow/Pages.antt =====
-- The product pages of core/commerce_flow.py: products grouped by category, the native product list
-- with its caps, and the list-message page at an offset.
pub mod Native
pub mod Window
pub mod Groups
pub mod Flat
use whatsapp_commerce_bot.Base.{
  ℕ, zero, suc, ◌+◌, ◌-◌, String, Bool, true, false, ◌||◌, Option, none, some, List, [], ◌∷◌, ◌++◌,
  map, take, drop, length, is_empty, str_eq, truthy, or_else, select, ltb, leb, ◌==◌, if◌then◌else◌,
}
use whatsapp_commerce_bot.Base.Text.{strip}
use whatsapp_commerce_bot.Db.{Database, Product, Tenant, Lang}
use whatsapp_commerce_bot.Db.Products.{get_active_products}
use whatsapp_commerce_bot.Db.Tenants.{get_tenant}
use whatsapp_commerce_bot.Message.{
  Part, say, raw, amount, clip, Button, Row, Section, NativeSection, Message,
}
use whatsapp_commerce_bot.World.{Env, World, Action, pure, query, ◌>>=◌, ◌>>◌, on_some, send}
use whatsapp_commerce_bot.Flow.Rows.{max_list_rows, product_row_id, first_chars}

abbrev pub Groups : Type 0
Groups = List (String × List Product)

-- `(p.category or "").strip() or "Other"`
unfoldable pub category_label : Product → String
category_label p =
    let label = strip (or_else p.category "") in if truthy (some label) then label else "Other"

-- A product joins its category's group, or opens a new one behind the others.
unfoldable pub add_to_group : String → Product → Groups → Groups
add_to_group label p [] = (label, p ∷ []) ∷ []
add_to_group label p ((l, ps) ∷ gs) =
    if str_eq l label then (l, ps ++ p ∷ []) ∷ gs else (l, ps) ∷ add_to_group label p gs

unfoldable pub group_from : Groups → List Product → Groups
group_from gs [] = gs
group_from gs (p ∷ ps) = group_from (add_to_group (category_label p) p gs) ps

-- `_group_products_by_category`
unfoldable pub group_products_by_category : List Product → Groups
group_products_by_category products = group_from [] products

unfoldable pub flat_products : Groups → List Product
flat_products [] = []
flat_products ((l, ps) ∷ gs) = ps ++ flat_products gs

-- `_category_display_label`
unfoldable pub category_display_label : String → Lang → Part
category_display_label label lang =
    if str_eq label "Other" then say "category_other" lang [] else raw label

-- `_MAX_NATIVE_PRODUCTS` and `_MAX_NATIVE_SECTIONS`
abbrev pub max_native_products : ℕ
max_native_products = 30

abbrev pub max_native_sections : ℕ
max_native_sections = 10

abbrev retailer_id : Product → String
retailer_id p = or_else p.catalog_retailer_id ""

-- `[p for p in plist if p.catalog_retailer_id][:remaining]`
unfoldable pub native_window : ℕ → List Product → List Product
native_window remaining ps = take remaining (select (λ p. truthy p.catalog_retailer_id) ps)

abbrev pub add_section : String → Lang → List Product → List NativeSection → List NativeSection
add_section label lang [] sections = sections
add_section label lang (p ∷ ps) sections =
    record {
      title = clip 24 (category_display_label label lang);
      product_items = map retailer_id (p ∷ ps);
    }
    ∷ sections

-- The loop over the groups, with the room left and the number of sections so far.
unfoldable pub native_sections : Lang → Groups → ℕ → ℕ → List NativeSection
native_sections lang [] remaining done = []
native_sections lang ((label, ps) ∷ gs) remaining done =
    let window = native_window remaining ps in
    let rest =
      native_sections lang gs (remaining - length window)
        (if is_empty window then done else suc done) in
    if (remaining == 0) || leb max_native_sections done
    then []
    else add_section label lang window rest

unfoldable pub product_row : Product → Row
product_row p = record {
  id = product_row_id p.id;
  title = raw (first_chars 24 p.name);
  description = amount p.price ∷ [];
}

unfoldable pub is_in : ℕ → List ℕ → Bool
is_in k [] = false
is_in k (i ∷ is) = (k == i) || is_in k is

abbrev pub id_of : Product → ℕ
id_of p = p.id

unfoldable pub has_more : ℕ → List Product → Bool
has_more offset flat = ltb (offset + max_list_rows) (length flat)

-- `window[:limit]`
unfoldable pub page_products : ℕ → List Product → List Product
page_products offset flat =
    take (if has_more offset flat then max_list_rows - 1 else max_list_rows)
      (take max_list_rows (drop offset flat))

unfoldable pub page_sections : Lang → List ℕ → Groups → List Section
page_sections lang capped_ids [] = []
page_sections lang capped_ids ((label, ps) ∷ gs) =
    let shown = select (λ p. is_in p.id capped_ids) ps in
    let rest = page_sections lang capped_ids gs in
    if is_empty shown
    then rest
    else record {
      title = clip 24 (category_display_label label lang);
      rows = map product_row shown;
    }
      ∷ rest

abbrev pub more_sections : Lang → Bool → List Section
more_sections lang false = []
more_sections lang true =
    record {
      title = say "category_more_section" lang [];
      rows =
          record { id = "shop_more"; title = say "see_more_products" lang []; description = [] }
          ∷ [];
    }
    ∷ []

unfoldable pub list_page : ℕ → Lang → List Product → List Section
list_page offset lang products =
    let grouped = group_products_by_category products in
    let flat = flat_products grouped in
    page_sections lang (map id_of (page_products offset flat)) grouped
    ++ more_sections lang (has_more offset flat)

module _ (env : Env) (phone : String) where
  -- `_send_native_product_list`
  unfoldable pub send_native_product_list : Tenant → List Product → Lang → Action Bool
  send_native_product_list tenant products lang = send env phone (
      Message.product_list (or_else tenant.meta_catalog_id "")
        (native_sections lang (group_products_by_category products) max_native_products 0)
        (say "browse_products_body" lang []) tenant.name)

  unfoldable pub send_list_page : ℕ → Lang → List Product → Action Bool
  send_list_page offset lang products = do
    send env phone (
        Message.list (say "browse_products_body" lang []) (say "view_products_button" lang [])
          (list_page offset lang products))
    pure true

  -- The native message where the tenant has a catalog, and the list where it has none or Meta does
  -- not take the message.
  unfoldable pub send_products : Option Tenant → ℕ → Lang → List Product → Action Bool
  send_products tenant offset lang products =
      on_some tenant (send_list_page offset lang products) λ t.
        if truthy t.meta_catalog_id
        then (do
          sent_native ← send_native_product_list t products lang
          if sent_native then pure true else send_list_page offset lang products)
        else send_list_page offset lang products

  -- `_send_product_list`
  unfoldable pub send_product_list : ℕ → ℕ → Lang → Action Bool
  send_product_list tenant_id offset lang = do
    products ← query (get_active_products tenant_id)
    if is_empty products
        then pure false
        else (do tenant ← query (get_tenant tenant_id); send_products tenant offset lang products)
