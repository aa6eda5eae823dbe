-- ===== src/Tests/Pages.antt =====
-- The pages' and the small helpers' theorems on the small shop.
use whatsapp_commerce_bot.Base.{
  ◌≡◌, refl, none, some, List, [], ◌∷◌, ◌++◌, drop, select, str_eq, if◌then◌else◌,
}
use whatsapp_commerce_bot.Base.Int.{pos}
use whatsapp_commerce_bot.Db.{Product, hi}
use whatsapp_commerce_bot.Phone.{normalize_phone}
use whatsapp_commerce_bot.Flow.Rows.{
  product_row_id, parse_product_row_id, order_row_id, parse_order_row_id,
}
use whatsapp_commerce_bot.Flow.Rows.Laws.{parse_row_ids}
use whatsapp_commerce_bot.Flow.Pages.{
  has_more, page_products, native_sections, max_native_products, max_native_sections,
  group_products_by_category, category_label,
}
use whatsapp_commerce_bot.Flow.Pages.Native.{Fits, native_sections-limits}
use whatsapp_commerce_bot.Flow.Pages.Groups.{
  Distinct, products_under, group_products_by_category-under,
}
use whatsapp_commerce_bot.Flow.Pages.Window.{shelf}
use whatsapp_commerce_bot.Message.{interactive_reply}
use whatsapp_commerce_bot.Sessions.{shop_list}
use whatsapp_commerce_bot.World.{World}
use whatsapp_commerce_bot.Db.Products.{get_active_products}
use whatsapp_commerce_bot.Flow.Shop.{offset_of, handle_shop_list}
use whatsapp_commerce_bot.Flow.Invariant.Own.{session_now}
use whatsapp_commerce_bot.Flow.Invariant.Pages.{Posted, handle_shop_list-covers}
use whatsapp_commerce_bot.Tests.{product, products, phone, env, shop, looking, world}

-- Twelve products in two categories.
abbrev many : List Product
many =
    product 1 1 "A" 100 5 "Fruit"
    ∷ product 2 1 "B" 100 5 "Veg"
    ∷ product 3 1 "C" 100 5 "Fruit"
    ∷ product 4 1 "D" 100 5 "Veg"
    ∷ product 5 1 "E" 100 5 "Fruit"
    ∷ product 6 1 "F" 100 5 "Veg"
    ∷ product 7 1 "G" 100 5 "Fruit"
    ∷ product 8 1 "H" 100 5 "Veg"
    ∷ product 9 1 "I" 100 5 "Fruit"
    ∷ product 10 1 "J" 100 5 "Veg"
    ∷ product 11 1 "K" 100 5 "Fruit"
    ∷ product 12 1 "L" 100 5 "Veg"
    ∷ []

-- A shop of twelve products, and a customer at its first page.
abbrev full : World
full = record (world shop_list) {
  db = record shop { products = record { rows = many; next_id = 13 } };
}

abbrev tapped_more : World
tapped_more = (handle_shop_list env phone 1 looking (interactive_reply "shop_more" "More") full).1

handle_shop_list-covers_example :
    (drop 0 (shelf (get_active_products 1 full.db))
      ≡ page_products 0 (shelf (get_active_products 1 full.db))
        ++ (if has_more 0 (shelf (get_active_products 1 full.db))
            then drop
                (offset_of (session_now env phone 1 tapped_more).context)
                (shelf (get_active_products 1 full.db))
            else []))
    × Posted env phone 1 looking
        (offset_of (session_now env phone 1 tapped_more).context)
        full
        tapped_more
handle_shop_list-covers_example = handle_shop_list-covers env phone 1 looking "More" full

native_sections-limits_example :
    Fits max_native_products max_native_sections
      (native_sections hi (group_products_by_category many) max_native_products 0)
native_sections-limits_example = native_sections-limits hi many

group_products_by_category-under_example :
    Distinct (group_products_by_category many)
    × (products_under "Veg" (group_products_by_category many)
        ≡ select (λ p. str_eq (category_label p) "Veg") many)
group_products_by_category-under_example = group_products_by_category-under "Veg" many

parse_row_ids_example :
    (parse_product_row_id (product_row_id 42) ≡ some (pos 42))
    × (parse_order_row_id (order_row_id 42) ≡ some (pos 42))
    × (parse_order_row_id (product_row_id 42) ≡ none)
    × (parse_product_row_id (order_row_id 42) ≡ none)
parse_row_ids_example = parse_row_ids 42

-- An Argentine mobile number.
argentine : normalize_phone "5491112345678" ≡ "541112345678"
unfolding normalize_phone
argentine = refl
