-- ===== src/Flow/Pages/Window.antt =====
-- The list-message pages of `_send_product_list` of core/commerce_flow.py: what a page shows, and how
-- pages follow on.
use whatsapp_commerce_bot.Base.{
  ℕ, ◌+◌, ◌-◌, ◌≤◌, ◌≡◌, sym, ◌∙◌, Bool, false, List, [], ◌∷◌, ◌++◌, arith, map, take, drop, length,
  length-drop, append_nil, take-take, take-append-drop, drop-add, take-all, if◌then◌else◌,
  Bool-cases, inl, inr,
}
use whatsapp_commerce_bot.Db.{Product, Lang}
use whatsapp_commerce_bot.Message.{Row, Section}
use whatsapp_commerce_bot.Flow.Rows.{max_list_rows}
use whatsapp_commerce_bot.Flow.Pages.{
  group_products_by_category, flat_products, is_in, id_of, has_more, page_products, more_sections,
}

-- Of products with different ids, those whose ids are in a window are the window.
abbrev shown_in : List Product → Product → Bool
shown_in window p = is_in p.id (map id_of window)

abbrev pub rows_of : List Section → List Row
rows_of [] = []
rows_of (s ∷ ss) = s.rows ++ rows_of ss

-- The products in the order in which the pages show them.
abbrev pub shelf : List Product → List Product
shelf products = flat_products (group_products_by_category products)

abbrev pub more_row : Lang → Bool → List Row
more_row lang more = rows_of (more_sections lang more)

page_limit : ℕ → List Product → ℕ
page_limit offset flat = if has_more offset flat then max_list_rows - 1 else max_list_rows

page_products-window :
    (offset : ℕ) (flat : List Product)
    → page_products offset flat ≡ take (page_limit offset flat) (drop offset flat)
unfolding page_products page_limit
page_products-window offset flat = elim (Bool-cases (has_more offset flat)) [
  | inl more ↦ rw more (take-take 9 10 (drop offset flat) (omega arith))
  | inr last ↦ rw last (take-take 10 10 (drop offset flat) (omega arith))
]

last_page :
    (offset : ℕ) (flat : List Product)
    → has_more offset flat ≡ false
    → length (drop offset flat) ≤ max_list_rows
unfolding has_more
last_page offset flat last = ground (arith, length-drop offset flat)

-- What is left from an offset on is the page there and, if there is more, what is left behind it.
pub page_products-covers :
    (offset : ℕ) (flat : List Product)
    → drop offset flat
      ≡ page_products offset flat
        ++ (if has_more offset flat then drop (offset + (max_list_rows - 1)) flat else [])
unfolding page_limit
page_products-covers offset flat =
    rw (page_products-window offset flat) (elim (Bool-cases (has_more offset flat)) [
      | inl more ↦
          rw more (rw (drop-add offset 9 flat) (sym (take-append-drop 9 (drop offset flat))))
      | inr last ↦ rw last (
          sym (
            append_nil (take 10 (drop offset flat))
            ∙ take-all 10 (drop offset flat) (last_page offset flat last)))
    ])
