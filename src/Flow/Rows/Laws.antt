-- ===== src/Flow/Rows/Laws.antt =====
-- Laws of core/commerce_flow.py's row ids and of its cart's helpers.
use whatsapp_commerce_bot.Base.{ℕ, ◌≡◌, ap, none, some, [], ◌∷◌, arith, ◌==◌, if◌then◌else◌}
use text.Mathlib.TextLemmas.{cons-append}
use whatsapp_commerce_bot.Base.Int.{pos}
use whatsapp_commerce_bot.Base.Text.{after_prefix}
use whatsapp_commerce_bot.Base.Text.Laws.{after_prefix-append}
use whatsapp_commerce_bot.Base.Numeral.{decimal}
use whatsapp_commerce_bot.Base.Numeral.Laws.{int-decimal}
use whatsapp_commerce_bot.Db.Checkout.{Cart}
use whatsapp_commerce_bot.Flow.Rows.{
  int_of, product_row_id, parse_product_row_id, order_row_id, parse_order_row_id, quantity_in,
  put_in,
}

-- A tap on a product's or an order's row leads back to that product or order, whatever its id; and
-- neither is mistaken for the other.
pub parse_row_ids :
    (n : ℕ)
    → (parse_product_row_id (product_row_id n) ≡ some (pos n))
      × (parse_order_row_id (order_row_id n) ≡ some (pos n))
      × (parse_order_row_id (product_row_id n) ≡ none)
      × (parse_product_row_id (order_row_id n) ≡ none)
unfolding parse_product_row_id parse_order_row_id product_row_id order_row_id after_prefix
parse_row_ids n = (
  rw (after_prefix-append "product_" (decimal n)) (int-decimal n),
  rw (after_prefix-append "order_" (decimal n)) (int-decimal n),
  other_product,
  other_order,
)
  where
    other_product : int_of (after_prefix "order_" (product_row_id n)) ≡ none
    other_product =
        ap (λ s. int_of (after_prefix "order_" s)) (cons-append "p" "roduct_" (decimal n))

    other_order : int_of (after_prefix "product_" (order_row_id n)) ≡ none
    other_order = ap (λ s. int_of (after_prefix "product_" s)) (cons-append "o" "rder_" (decimal n))

-- Putting a quantity into a cart sets that product's and no other's.
pub quantity_in-put_in :
    (k key qty : ℕ) (cart : Cart)
    → quantity_in k (put_in key qty cart) ≡ (if key == k then qty else quantity_in k cart)
unfolding quantity_in put_in
quantity_in-put_in k key qty [] = ground arith
quantity_in-put_in k key qty ((i, q) ∷ cart) = ground (arith, quantity_in-put_in k key qty cart)
