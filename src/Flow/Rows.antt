-- ===== src/Flow/Rows.antt =====
-- core/commerce_flow.py's row ids, constants and small helpers.
pub mod Laws
use Prim.Native.String.{String, ◌++◌ as str_append}
use Prim.Native.String
use whatsapp_commerce_bot.Base.{
  ℕ, zero, suc, ◌+◌, ◌*◌, ◌-◌, Bool, true, false, ◌||◌, Option, none, some, List, [], ◌∷◌, ◌++◌,
  take, str_eq, or_else, total_of, if◌then◌else◌, ◌==◌,
}
use whatsapp_commerce_bot.Base.Int.{ℤ, by_id}
use whatsapp_commerce_bot.Base.Text.{after_prefix}
use whatsapp_commerce_bot.Base.Numeral.{decimal, int}
use whatsapp_commerce_bot.Db.{Database, Product, Lang, en}
use whatsapp_commerce_bot.Db.Products.{get_product}
use whatsapp_commerce_bot.Db.Checkout.{Cart}

-- MAX_LIST_ROWS
abbrev pub max_list_rows : ℕ
max_list_rows = 10

abbrev pub default_lang : Lang
default_lang = en

-- `_cap_rows`
unfoldable pub cap_rows {ℓ} : {A : Type ℓ} → List A → Option A → List A
cap_rows rows none = take max_list_rows rows
cap_rows rows (some more_row) = take (max_list_rows - 1) rows ++ more_row ∷ []

unfoldable pub product_row_id : ℕ → String
product_row_id product_id = str_append "product_" (decimal product_id)

abbrev int_of : Option String → Option ℤ
int_of none = none
int_of (some s) = int s

unfoldable pub parse_product_row_id : String → Option ℤ
parse_product_row_id row_id = int_of (after_prefix "product_" row_id)

unfoldable pub order_row_id : ℕ → String
order_row_id order_id = str_append "order_" (decimal order_id)

unfoldable pub parse_order_row_id : String → Option ℤ
parse_order_row_id row_id = int_of (after_prefix "order_" row_id)

-- `_product_name`
unfoldable pub product_name : ℕ → ℕ → Database → String
product_name tenant_id product_id d = elim (get_product tenant_id product_id d) [
  | none ↦ str_append "Product #" (decimal product_id)
  | some p ↦ p.name
]

-- `_cart_subtotal`
abbrev entry_total : ℕ → Database → ℕ × ℕ → ℕ
entry_total tenant_id d (product_id, qty) = elim (get_product tenant_id product_id d) [
  | none ↦ 0
  | some p ↦ p.price * qty
]

unfoldable pub cart_subtotal : ℕ → Cart → Database → ℕ
cart_subtotal tenant_id cart d = total_of (entry_total tenant_id d) cart

-- `cart.get(key, 0)` and `cart[key] = qty`
unfoldable pub quantity_in : ℕ → Cart → ℕ
quantity_in key [] = 0
quantity_in key ((k, q) ∷ cart) = if k == key then q else quantity_in key cart

unfoldable pub put_in : ℕ → ℕ → Cart → Cart
put_in key qty [] = (key, qty) ∷ []
put_in key qty ((k, q) ∷ cart) = if k == key then (k, qty) ∷ cart else (k, q) ∷ put_in key qty cart

-- `s[:n]`
unfoldable pub first_chars : ℕ → String → String
first_chars zero s = ""
first_chars (suc n) String.[] = ""
first_chars (suc n) (String.◌∷◌ c s) = String.◌∷◌ c (first_chars n s)

-- `_MAIN_MENU_IDS`
unfoldable pub is_main_menu_id : String → Bool
is_main_menu_id id =
    str_eq id "menu_shop"
    || str_eq id "menu_my_orders"
    || str_eq id "menu_track_order"
    || str_eq id "menu_offers"
    || str_eq id "menu_account"
    || str_eq id "menu_talk_to_us"

-- RESET_KEYWORDS
abbrev pub reset_keywords : List String
reset_keywords =
    "hi" ∷ "hello" ∷ "hey" ∷ "menu" ∷ "restart" ∷ "start" ∷ "नमस्ते" ∷ "मेनू" ∷ "शुरू" ∷ "हाय" ∷ []
