-- ===== src/Flow/Invariant/Checkout.antt =====
-- The checkout keeps what its primitives keep.
use whatsapp_commerce_bot.Base.{ℕ, String, Option, some, List, [], ◌∷◌, refl}
use whatsapp_commerce_bot.Db.{Order, Lang}
use whatsapp_commerce_bot.Db.Checkout.{Cart}
use whatsapp_commerce_bot.Message.{Part}
use whatsapp_commerce_bot.Payments.{LinkResult, not_configured, api_error, link}
use whatsapp_commerce_bot.World.{Env, World}
use whatsapp_commerce_bot.World.Keeps.{Keeps, keeps_rules, Keeps-bind}
use whatsapp_commerce_bot.Flow.Checkout.{
  finish_checkout, complete_checkout_from_cart, checkout, start_checkout,
}
use whatsapp_commerce_bot.Strings.Filled.{known}
use whatsapp_commerce_bot.Flow.Invariant.Parts.{every, known_part, Known, every-append}
use whatsapp_commerce_bot.Flow.Invariant.Texts.{order_lines-Known}
use whatsapp_commerce_bot.Flow.Invariant.{IsSafe}
use whatsapp_commerce_bot.Flow.Invariant.Sends.{send_text-Keeps}

module _ (env : Env) (phone : String) (t : ℕ) {P : World → Type 0} {L : Option Lang → Type 0}
    (safe : IsSafe env phone t P L) where
  finish_checkout-Keeps :
      (lang : Lang) (o : Order) (message : List Part) (r : LinkResult)
      → Known message
      → Keeps P (finish_checkout env phone t lang o message r)
  unfolding finish_checkout every known_part known
  finish_checkout-Keeps lang o message not_configured k =
      send_text-Keeps env phone safe.sends _
        (every-append known_part message (_ ∷ _ ∷ _ ∷ []) k refl)
  finish_checkout-Keeps lang o message api_error k =
      send_text-Keeps env phone safe.sends _
        (every-append known_part message (_ ∷ _ ∷ _ ∷ []) k refl)
  finish_checkout-Keeps lang o message (link url id) k =
      Keeps-bind _ _ (safe.links o.id url (some id)) λ _.
        send_text-Keeps env phone safe.sends _
          (every-append known_part message (_ ∷ _ ∷ _ ∷ []) k refl)

  pub complete_checkout_from_cart-Keeps :
      (cart : Cart) (lang : Lang) (code : Option String)
      → Keeps P (complete_checkout_from_cart env phone t cart lang code)
  unfolding complete_checkout_from_cart every known_part known
  complete_checkout_from_cart-Keeps cart lang code =
      search
        (
          keeps_rules,
          safe.places,
          finish_checkout-Keeps,
          order_lines-Known,
          send_text-Keeps env phone safe.sends,
        )
        depth 14

  pub checkout-Keeps :
      (cart : Cart) (lang : Lang) (code : Option String)
      → L (some lang)
      → Keeps P (checkout env phone t cart lang code)
  unfolding checkout every known_part known
  checkout-Keeps cart lang code l =
      search
        (
          keeps_rules,
          safe.moves,
          complete_checkout_from_cart-Keeps,
          send_text-Keeps env phone safe.sends,
        )
        depth 14

  pub start_checkout-Keeps :
      (cart : Cart) (lang : Lang) (code : Option String)
      → L (some lang)
      → Keeps P (start_checkout env phone t cart lang code)
  unfolding start_checkout every known_part known
  start_checkout-Keeps cart lang code l =
      search (keeps_rules, safe.moves, checkout-Keeps, send_text-Keeps env phone safe.sends) depth
        14
