-- ===== src/Flow/Pages/Native.antt =====
-- The caps of Meta's product-list message, in `_send_native_product_list` of core/commerce_flow.py.
use whatsapp_commerce_bot.Base.{
  ℕ, suc, ◌-◌, ◌≤◌, ◌≡◌, refl, String, Bool, true, false, ◌||◌, List, [], ◌∷◌, arith, select,
  length, length-take, length-map, is_empty, truthy, total_of, All, leb, ◌==◌, if◌then◌else◌,
}
use whatsapp_commerce_bot.Db.{Product, Lang}
use whatsapp_commerce_bot.Message.{NativeSection}
use whatsapp_commerce_bot.Flow.Pages.{
  Groups, native_window, add_section, native_sections, max_native_products, max_native_sections,
  retailer_id, group_products_by_category,
}

abbrev item_count : List NativeSection → ℕ
item_count = total_of (λ s. length s.product_items)

abbrev HasItems : NativeSection → Type 0
HasItems s = 1 ≤ length s.product_items

-- The limits, for the room that is left.
abbrev pub Fits : ℕ → ℕ → List NativeSection → Type 0
Fits items sections ss = (item_count ss ≤ items) × (length ss ≤ sections) × All HasItems ss

length-native_window-le : (n : ℕ) (ps : List Product) → length (native_window n ps) ≤ n
unfolding native_window
length-native_window-le n ps =
    omega (arith, length-take n (select (λ p. truthy p.catalog_retailer_id) ps))

add_section-Fits :
    (label : String) (lang : Lang) (window : List Product) (remaining done : ℕ)
    (rest : List NativeSection)
    → length window ≤ remaining
    → suc done ≤ max_native_sections
    → Fits
        (remaining - length window)
        (max_native_sections - (if is_empty window then done else suc done))
        rest
    → Fits remaining (max_native_sections - done) (add_section label lang window rest)
add_section-Fits label lang [] remaining done rest le one (items, sections, all) =
    (omega arith, sections, all)
add_section-Fits label lang (p ∷ ps) remaining done rest le one (items, sections, all) =
    (omega (arith, length-map retailer_id ps), omega arith, (omega arith, all))

cut-Fits :
    (b : Bool) (items sections : ℕ) (ss : List NativeSection)
    → (b ≡ false → Fits items sections ss)
    → Fits items sections (if b then [] else ss)
cut-Fits true items sections ss h = (omega arith, omega arith, tt)
cut-Fits false items sections ss h = h refl

room :
    (done : ℕ) (b : Bool)
    → (b || leb max_native_sections done) ≡ false
    → suc done ≤ max_native_sections
room done b h = ground arith

native_sections-Fits :
    (lang : Lang) (gs : Groups) (remaining done : ℕ)
    → Fits remaining (max_native_sections - done) (native_sections lang gs remaining done)
unfolding native_sections
native_sections-Fits lang [] remaining done = (omega arith, omega arith, tt)
native_sections-Fits lang ((label, ps) ∷ gs) remaining done =
    let window = native_window remaining ps in
    let left = remaining - length window in
    let used = if is_empty window then done else suc done in
    let rest = native_sections lang gs left used in
    cut-Fits ((remaining == 0) || leb max_native_sections done) remaining
      (max_native_sections - done) (add_section label lang window rest)
      (λ goes_on.
        add_section-Fits label lang window remaining done rest
          (length-native_window-le remaining ps) (room done (remaining == 0) goes_on)
          (native_sections-Fits lang gs left used))

-- Meta's limits hold for any catalog: a product-list message has at most 30 products in at most 10
-- sections, and no section is empty.
pub native_sections-limits :
    (lang : Lang) (products : List Product)
    → Fits max_native_products max_native_sections
        (native_sections lang (group_products_by_category products) max_native_products 0)
native_sections-limits lang products =
    native_sections-Fits lang (group_products_by_category products) max_native_products 0
