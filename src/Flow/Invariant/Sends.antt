-- ===== src/Flow/Invariant/Sends.antt =====
-- The message builders: what sending keeps, and the texts that they ask for.
use whatsapp_commerce_bot.Base.{ℕ, ◌≡◌, refl, arith, Bool, true, ◌&&◌, String, Option, List}
use whatsapp_commerce_bot.Db.{Product, Order, Lang, Tenant}
use whatsapp_commerce_bot.Db.Checkout.{Cart}
use whatsapp_commerce_bot.Message.{Message, Part, Button}
use whatsapp_commerce_bot.World.{Env, World, send}
use whatsapp_commerce_bot.World.Keeps.{Keeps, keeps_rules, Keeps-read}
use whatsapp_commerce_bot.Strings.Filled.{known}
use whatsapp_commerce_bot.Flow.Pages.{
  send_native_product_list, send_list_page, send_products, send_product_list,
}
use whatsapp_commerce_bot.Flow.Prompts.{
  cart_count_summary, send_text, send_buttons, send_language_prompt, send_main_menu,
  send_product_detail, send_add_to_cart_prompt, send_cart_prompt, send_cart, send_offers,
  send_orders_list, send_order_detail,
}
use whatsapp_commerce_bot.Flow.Invariant.Parts.{every, known_part, message_parts, Renders, Known}
use whatsapp_commerce_bot.Flow.Invariant.Texts.{
  cart_text-Known, order_text-Known, cart_lines-Known, coupon_preview-Known, offers-Known,
  item_lines-Known, list_page-known, native_sections-known, order_rows-known,
}

and_intro : (a b : Bool) → a ≡ true → b ≡ true → (a && b) ≡ true
and_intro a b h k = rw (h, k) refl

module _ (env : Env) (phone : String) {P : World → Type 0}
    (sends : (m : Message) → Renders m → Keeps P (send env phone m)) where
  pub send_text-Keeps : (parts : List Part) → Known parts → Keeps P (send_text env phone parts)
  unfolding send_text message_parts
  send_text-Keeps parts k = search (keeps_rules, sends)

  pub send_buttons-Keeps :
      (body : List Part) (image : Option String) (bs : List Button)
      → Known body
      → every (λ (b : Button). known_part b.title) bs ≡ true
      → Keeps P (send_buttons env phone body image bs)
  unfolding send_buttons message_parts
  send_buttons-Keeps body image bs h k = search (keeps_rules, sends, and_intro)

  pub send_language_prompt-Keeps : Keeps P (send_language_prompt env phone)
  unfolding send_language_prompt message_parts every known_part
  send_language_prompt-Keeps = search (send_buttons-Keeps)

  pub send_main_menu-Keeps :
      (name : String) (lang : Lang) → Keeps P (send_main_menu env phone name lang)
  unfolding send_main_menu message_parts every known_part known
  send_main_menu-Keeps name lang = search (keeps_rules, sends) depth 14

  pub send_product_detail-Keeps :
      (p : Product) (lang : Lang) → Keeps P (send_product_detail env phone p lang)
  unfolding send_product_detail message_parts every known_part known
  send_product_detail-Keeps p lang = send_buttons-Keeps _ _ _ (ground arith) refl

  pub send_add_to_cart_prompt-Keeps :
      (name : String) (cart : Cart) (t : ℕ) (lang : Lang)
      → Keeps P (send_add_to_cart_prompt env phone name cart t lang)
  unfolding send_add_to_cart_prompt message_parts every known_part known cart_count_summary
  send_add_to_cart_prompt-Keeps name cart t lang = search (Keeps-read, send_buttons-Keeps)

  pub send_cart_prompt-Keeps :
      (cart : Cart) (t : ℕ) (lang : Lang) → Keeps P (send_cart_prompt env phone cart t lang)
  unfolding send_cart_prompt message_parts every known_part known cart_count_summary
  send_cart_prompt-Keeps cart t lang = search (Keeps-read, send_buttons-Keeps)

  pub send_cart-Keeps :
      (t : ℕ) (cart : Cart) (lang : Lang) (code : Option String)
      → Keeps P (send_cart env phone t cart lang code)
  unfolding send_cart message_parts every known_part known
  send_cart-Keeps t cart lang code =
      search
        (
          keeps_rules, send_text-Keeps, send_buttons-Keeps, cart_text-Known, cart_lines-Known,
          coupon_preview-Known,
        )
        depth 14

  pub send_offers-Keeps : (t : ℕ) (lang : Lang) → Keeps P (send_offers env phone t lang)
  unfolding send_offers every known_part known
  send_offers-Keeps t lang = search (keeps_rules, send_text-Keeps, offers-Known) depth 14

  pub send_orders_list-Keeps :
      (t : ℕ) (customer : String) (lang : Lang)
      → Keeps P (send_orders_list env phone t customer lang)
  unfolding send_orders_list message_parts every known_part known
  send_orders_list-Keeps t customer lang = search (keeps_rules, sends, order_rows-known) depth 14

  pub send_order_detail-Keeps :
      (t : ℕ) (o : Order) (lang : Lang) → Keeps P (send_order_detail env phone t o lang)
  unfolding send_order_detail message_parts every known_part known
  send_order_detail-Keeps t o lang =
      search (keeps_rules, send_buttons-Keeps, order_text-Known, item_lines-Known) depth 14

  pub send_list_page-Keeps :
      (offset : ℕ) (lang : Lang) (ps : List Product)
      → Keeps P (send_list_page env phone offset lang ps)
  unfolding send_list_page message_parts known_part known
  send_list_page-Keeps offset lang ps = search (keeps_rules, sends, list_page-known) depth 14

  pub send_products-Keeps :
      (tenant : Option Tenant) (offset : ℕ) (lang : Lang) (ps : List Product)
      → Keeps P (send_products env phone tenant offset lang ps)
  unfolding send_products send_native_product_list message_parts known_part known
  send_products-Keeps tenant offset lang ps =
      search (keeps_rules, sends, native_sections-known, send_list_page-Keeps) depth 14

  pub send_product_list-Keeps :
      (t : ℕ) (offset : ℕ) (lang : Lang) → Keeps P (send_product_list env phone t offset lang)
  unfolding send_product_list
  send_product_list-Keeps t offset lang = search (keeps_rules, send_products-Keeps) depth 14
