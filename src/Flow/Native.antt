-- ===== src/Flow/Native.antt =====
-- `handle_native_order` of core/commerce_flow.py: a cart built in WhatsApp's own catalog.
use whatsapp_commerce_bot.Base.{
  ℕ, zero, suc, ◌+◌, String, Option, none, some, List, [], ◌∷◌, is_empty, truthy, or_else,
  if◌then◌else◌,
}
use whatsapp_commerce_bot.Base.Int.{ℤ, pos, negsuc}
use whatsapp_commerce_bot.Base.Numeral.{int}
use whatsapp_commerce_bot.Db.{Database, Tenant, Product}
use whatsapp_commerce_bot.Db.Products.{get_product_by_retailer_id}
use whatsapp_commerce_bot.Db.Checkout.{Cart}
use whatsapp_commerce_bot.Message.{NativeItem, Quantity, missing, whole, real, other}
use whatsapp_commerce_bot.World.{Env, Action, query, ◌>>=◌}
use whatsapp_commerce_bot.Flow.Rows.{default_lang, quantity_in, put_in}
use whatsapp_commerce_bot.Flow.Prompts.{phrase, send_text}
use whatsapp_commerce_bot.Flow.Checkout.{complete_checkout_from_cart}

-- `int(quantity)`, and nothing where it is None, empty or raises.
unfoldable pub read_quantity : Quantity → Option ℤ
read_quantity missing = none
read_quantity (whole n) = some n
read_quantity (real n) = some n
read_quantity (Quantity.text s) = if truthy (some s) then int s else none
read_quantity other = none

-- `qty <= 0` drops the item.
unfoldable pub positive : Option ℤ → Option ℕ
positive none = none
positive (some (pos zero)) = none
positive (some (pos (suc n))) = some (suc n)
positive (some (negsuc n)) = none

abbrev sold_as : Option Product → Option Product
sold_as none = none
sold_as (some p) = if p.is_active then some p else none

unfoldable pub add_item : ℕ → Database → Cart → NativeItem → Cart
add_item tenant_id d cart item = elim (positive (read_quantity item.quantity)) [
  | none ↦ cart
  | some qty ↦
      if truthy item.product_retailer_id
      then elim (sold_as
          (get_product_by_retailer_id tenant_id (or_else item.product_retailer_id "") d)) [
            | none ↦ cart
            | some p ↦ put_in p.id (quantity_in p.id cart + qty) cart
          ]
      else cart
]

unfoldable pub native_cart : ℕ → Database → List NativeItem → Cart → Cart
native_cart tenant_id d [] cart = cart
native_cart tenant_id d (i ∷ is) cart = native_cart tenant_id d is (add_item tenant_id d cart i)

unfoldable pub handle_native_order : Env → Tenant → String → List NativeItem → Action (Unit {0})
handle_native_order env tenant phone product_items = do
  cart ← query (λ d. native_cart tenant.id d product_items [])
  if is_empty cart
      then send_text env phone (phrase default_lang "native_order_unavailable")
      else complete_checkout_from_cart env phone tenant.id cart default_lang none
