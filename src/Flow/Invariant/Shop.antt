-- ===== src/Flow/Invariant/Shop.antt =====
-- The shopping handlers keep what their primitives keep.
use whatsapp_commerce_bot.Base.{ℕ, String, Option, some, [], ◌∷◌, refl}
use whatsapp_commerce_bot.Db.{Product, Lang}
use whatsapp_commerce_bot.Db.Coupons.{CouponError, not_found, inactive, expired}
use whatsapp_commerce_bot.Message.{Reply, text, say}
use whatsapp_commerce_bot.Sessions.{Context}
use whatsapp_commerce_bot.World.{Env, World}
use whatsapp_commerce_bot.World.Keeps.{Keeps, keeps_rules}
use whatsapp_commerce_bot.Flow.Shop.{
  error_key, lang_of, next_page, open_product, handle_shop_list, add_to_cart, handle_product_detail,
  handle_post_add, handle_cart, handle_apply_coupon, handle_collect_name,
}
use whatsapp_commerce_bot.Strings.Filled.{known}
use whatsapp_commerce_bot.Flow.Invariant.Parts.{every, known_part, Known}
use whatsapp_commerce_bot.Flow.Invariant.{IsSafe}
use whatsapp_commerce_bot.Flow.Invariant.Sends.{
  send_text-Keeps, send_main_menu-Keeps, send_product_detail-Keeps, send_add_to_cart_prompt-Keeps,
  send_cart_prompt-Keeps, send_cart-Keeps, send_product_list-Keeps,
}
use whatsapp_commerce_bot.Flow.Invariant.Checkout.{checkout-Keeps, start_checkout-Keeps}

coupon_error-Known :
    (lang : Lang) (e : CouponError) (code : String)
    → Known (say (error_key e) lang (("code", text code) ∷ []) ∷ [])
unfolding every known_part known
coupon_error-Known lang not_found code = refl
coupon_error-Known lang inactive code = refl
coupon_error-Known lang expired code = refl

module _ (env : Env) (phone : String) (t : ℕ) {P : World → Type 0} {L : Option Lang → Type 0}
    (safe : IsSafe env phone t P L) (c : Context) (l : L c.language)
    (l' : L (some (lang_of c))) where
  next_page-Keeps : Keeps P (next_page env phone t c)
  unfolding next_page
  next_page-Keeps =
      search (keeps_rules, safe.moves, send_product_list-Keeps env phone safe.sends) depth 20

  open_product-Keeps : (p : Product) → Keeps P (open_product env phone t c p)
  unfolding open_product
  open_product-Keeps p =
      search (keeps_rules, safe.moves, send_product_detail-Keeps env phone safe.sends) depth 20

  pub handle_shop_list-Keeps : (reply : Reply) → Keeps P (handle_shop_list env phone t c reply)
  unfolding handle_shop_list every known_part known
  handle_shop_list-Keeps reply =
      search
        (
          keeps_rules,
          safe.moves,
          next_page-Keeps,
          open_product-Keeps,
          send_text-Keeps env phone safe.sends,
          send_product_list-Keeps env phone safe.sends,
        )
        depth 20

  add_to_cart-Keeps : (p : Product) → Keeps P (add_to_cart env phone t c p)
  unfolding add_to_cart every known_part known
  add_to_cart-Keeps p =
      search
        (
          keeps_rules,
          safe.moves,
          send_text-Keeps env phone safe.sends,
          send_product_detail-Keeps env phone safe.sends,
          send_add_to_cart_prompt-Keeps env phone safe.sends,
        )
        depth 20

  pub handle_product_detail-Keeps :
      (reply : Reply) → Keeps P (handle_product_detail env phone t c reply)
  unfolding handle_product_detail every known_part known
  handle_product_detail-Keeps reply =
      search
        (
          keeps_rules,
          safe.moves,
          add_to_cart-Keeps,
          send_text-Keeps env phone safe.sends,
          send_product_list-Keeps env phone safe.sends,
          send_main_menu-Keeps env phone safe.sends,
          send_product_detail-Keeps env phone safe.sends,
        )
        depth 20

  pub handle_post_add-Keeps : (reply : Reply) → Keeps P (handle_post_add env phone t c reply)
  unfolding handle_post_add every known_part known
  handle_post_add-Keeps reply =
      search
        (
          keeps_rules,
          safe.moves,
          send_text-Keeps env phone safe.sends,
          send_product_list-Keeps env phone safe.sends,
          send_cart_prompt-Keeps env phone safe.sends,
          send_cart-Keeps env phone safe.sends,
        )
        depth 20

  pub handle_cart-Keeps : (reply : Reply) → Keeps P (handle_cart env phone t c reply)
  unfolding handle_cart every known_part known
  handle_cart-Keeps reply =
      search
        (
          keeps_rules,
          safe.moves,
          send_text-Keeps env phone safe.sends,
          send_product_list-Keeps env phone safe.sends,
          send_cart-Keeps env phone safe.sends,
          start_checkout-Keeps env phone t safe,
        )
        depth 20

  pub handle_apply_coupon-Keeps :
      (reply : Reply) → Keeps P (handle_apply_coupon env phone t c reply)
  unfolding handle_apply_coupon every known_part known
  handle_apply_coupon-Keeps reply =
      search
        (
          keeps_rules,
          safe.moves,
          coupon_error-Known,
          send_text-Keeps env phone safe.sends,
          send_cart-Keeps env phone safe.sends,
        )
        depth 20

  pub handle_collect_name-Keeps :
      (reply : Reply) → Keeps P (handle_collect_name env phone t c reply)
  unfolding handle_collect_name every known_part known
  handle_collect_name-Keeps reply =
      search
        (
          keeps_rules,
          safe.moves,
          send_text-Keeps env phone safe.sends,
          safe.names,
          checkout-Keeps env phone t safe,
        )
        depth 20
