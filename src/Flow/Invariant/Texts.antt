-- ===== src/Flow/Invariant/Texts.antt =====
-- The texts that the message builders of core/commerce_flow.py put together from rows.
use whatsapp_commerce_bot.Base.{
  suc, length, ◌-◌, leb, ◌==◌, ◌||◌, arith, ℕ, ◌≡◌, refl, String, Bool, true, false, Option, none,
  List, [], ◌∷◌, map, select, is_empty, if◌then◌else◌,
}
use whatsapp_commerce_bot.Db.{
  Database, Product, Order, OrderItem, Coupon, DiscountType, percentage, flat, Lang,
}
use whatsapp_commerce_bot.Db.Orders.{get_order_items}
use whatsapp_commerce_bot.Db.Checkout.{Cart}
use whatsapp_commerce_bot.Message.{Part, NativeSection}
use whatsapp_commerce_bot.World.{Env}
use whatsapp_commerce_bot.Strings.Filled.{known}
use whatsapp_commerce_bot.Flow.Rows.{max_list_rows, cap_rows}
use whatsapp_commerce_bot.Flow.Pages.{
  Groups, is_in, add_section, max_native_sections, category_display_label, native_window,
  native_sections, product_row, page_sections, more_sections, has_more, id_of, page_products,
  group_products_by_category, flat_products, list_page,
}
use whatsapp_commerce_bot.Flow.Prompts.{
  cart_count_summary, cart_lines, coupon_preview, offer_line, join_lines, item_lines, cart_text,
  order_text, order_row,
}
use whatsapp_commerce_bot.Flow.Checkout.{discount_lines, removed_lines, order_lines}
use whatsapp_commerce_bot.Flow.Invariant.Parts.{
  every, known_part, Known, row_parts, section_parts, every-append, every-if, every-take, every-map,
}

pub cart_count_summary-Known :
    (cart : Cart) (t : ℕ) (lang : Lang) (d : Database)
    → known_part (cart_count_summary cart t lang d) ≡ true
unfolding cart_count_summary known_part known
cart_count_summary-Known cart t lang d = refl

pub cart_lines-Known : (t : ℕ) (cart : Cart) (d : Database) → Known (cart_lines t cart d)
unfolding cart_lines every known_part
cart_lines-Known t [] d = refl
cart_lines-Known t ((id, qty) ∷ cart) d = ground (arith, cart_lines-Known t cart d)

pub coupon_preview-Known :
    (env : Env) (t : ℕ) (lang : Lang) (subtotal : ℕ) (code : Option String) (d : Database)
    → Known (coupon_preview env t lang subtotal code d)
unfolding coupon_preview every known_part known
coupon_preview-Known env t lang subtotal code d = ground arith

pub cart_text-Known :
    (lang : Lang) (lines : List Part) (subtotal : ℕ) (coupon : List Part)
    → Known lines
    → Known coupon
    → Known (cart_text lang lines subtotal coupon)
unfolding cart_text every known_part known
cart_text-Known lang lines subtotal coupon h k = every-append known_part lines (_ ∷ _ ∷ coupon) h k

pub order_text-Known :
    (lang : Lang) (o : Order) (lines : List Part) → Known lines → Known (order_text lang o lines)
unfolding order_text every known_part known
order_text-Known lang o lines h = every-append known_part lines (_ ∷ _ ∷ []) h refl

offer_line-Known :
    (lang : Lang) (c : Coupon) (k : DiscountType) → known_part (offer_line lang c k) ≡ true
unfolding offer_line known_part known
offer_line-Known lang c percentage = refl
offer_line-Known lang c flat = refl

join_lines-Known : (ps : List Part) → Known ps → Known (join_lines ps)
unfolding join_lines every known_part
join_lines-Known [] h = h
join_lines-Known (p ∷ []) h = h
join_lines-Known (p ∷ q ∷ ps) h = ground (arith, join_lines-Known (q ∷ ps))

pub offers-Known :
    (lang : Lang) (cs : List Coupon)
    → Known (join_lines (map (λ c. offer_line lang c c.discount_type) cs))
offers-Known lang cs = join_lines-Known _ (
    every-map known_part (λ (c : Coupon). offer_line lang c c.discount_type)
      (λ c. offer_line-Known lang c c.discount_type) cs)

pub item_lines-Known : (t : ℕ) (d : Database) (is : List OrderItem) → Known (item_lines t d is)
unfolding item_lines every known_part
item_lines-Known t d [] = refl
item_lines-Known t d (i ∷ []) = refl
item_lines-Known t d (i ∷ j ∷ is) = item_lines-Known t d (j ∷ is)

discount_lines-Known : (o : Order) (lang : Lang) → Known (discount_lines o lang)
unfolding discount_lines every known_part known
discount_lines-Known o lang = ground arith

removed_lines-Known :
    (t : ℕ) (lang : Lang) (ids : List ℕ) (d : Database) → Known (removed_lines t lang ids d)
unfolding removed_lines every known_part known
removed_lines-Known t lang [] d = refl
removed_lines-Known t lang (i ∷ ids) d = refl

pub order_lines-Known :
    (t : ℕ) (lang : Lang) (o : Order) (ids : List ℕ) (d : Database)
    → Known (order_lines t lang o ids d)
unfolding order_lines every known_part known
order_lines-Known t lang o ids d =
    every-append known_part (item_lines t d (get_order_items t o.id d)) _
      (item_lines-Known t d (get_order_items t o.id d))
      (every-append known_part (discount_lines o lang) (_ ∷ removed_lines t lang ids d)
        (discount_lines-Known o lang) (removed_lines-Known t lang ids d))

label-known : (label : String) (lang : Lang) → known_part (category_display_label label lang) ≡ true
unfolding category_display_label known_part known
label-known label lang = ground arith

rows-known : (ps : List Product) → every (row_parts known_part) (map product_row ps) ≡ true
unfolding product_row every known_part
rows-known ps = every-map (row_parts known_part) product_row (λ p. refl) ps

page_sections-known :
    (lang : Lang) (ids : List ℕ) (gs : Groups)
    → every (section_parts known_part) (page_sections lang ids gs) ≡ true
unfolding page_sections every known_part
page_sections-known lang ids [] = refl
page_sections-known lang ids ((label, ps) ∷ gs) = ground (
  arith,
  label-known label lang,
  rows-known (select (λ p. is_in p.id ids) ps),
  page_sections-known lang ids gs,
)

more_sections-known :
    (lang : Lang) (more : Bool) → every (section_parts known_part) (more_sections lang more) ≡ true
unfolding every known_part known
more_sections-known lang true = refl
more_sections-known lang false = refl

pub list_page-known :
    (offset : ℕ) (lang : Lang) (ps : List Product)
    → every (section_parts known_part) (list_page offset lang ps) ≡ true
unfolding list_page
list_page-known offset lang ps =
    let flat = flat_products (group_products_by_category ps) in
    let ids = map id_of (page_products offset flat) in
    every-append (section_parts known_part) (page_sections lang ids (group_products_by_category ps))
      (more_sections lang (has_more offset flat))
      (page_sections-known lang ids (group_products_by_category ps))
      (more_sections-known lang (has_more offset flat))

abbrev pub titled : NativeSection → Bool
titled s = known_part s.title

add_section-known :
    (label : String) (lang : Lang) (ps : List Product) (ss : List NativeSection)
    → every titled ss ≡ true
    → every titled (add_section label lang ps ss) ≡ true
unfolding every known_part
add_section-known label lang [] ss h = h
add_section-known label lang (p ∷ ps) ss h = ground (arith, label-known label lang)

pub native_sections-known :
    (lang : Lang) (gs : Groups) (remaining done : ℕ)
    → every titled (native_sections lang gs remaining done) ≡ true
unfolding native_sections every
native_sections-known lang [] remaining done = refl
native_sections-known lang ((label, ps) ∷ gs) remaining done =
    let window = native_window remaining ps in
    let rest =
      native_sections lang gs (remaining - length window)
        (if is_empty window then done else suc done) in
    every-if titled ((remaining == 0) || leb max_native_sections done) []
      (add_section label lang window rest) refl
      (add_section-known label lang window rest (
        native_sections-known lang gs (remaining - length window)
          (if is_empty window then done else suc done)))

order_row-known : (lang : Lang) (o : Order) → row_parts known_part (order_row lang o) ≡ true
unfolding every known_part known
order_row-known lang o = refl

pub order_rows-known :
    (lang : Lang) (os : List Order)
    → every (row_parts known_part) (cap_rows (map (order_row lang) os) none) ≡ true
unfolding cap_rows
order_rows-known lang os =
    every-take (row_parts known_part) max_list_rows (map (order_row lang) os)
      (every-map (row_parts known_part) (order_row lang) (order_row-known lang) os)
