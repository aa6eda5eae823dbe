-- ===== src/Flow/Invariant/Orders.antt =====
-- The order handlers and the menu's starters keep what their primitives keep.
use whatsapp_commerce_bot.Base.{ℕ, String, Option, some}
use whatsapp_commerce_bot.Db.{Lang}
use whatsapp_commerce_bot.Message.{Reply}
use whatsapp_commerce_bot.Sessions.{Context}
use whatsapp_commerce_bot.World.{Env, World}
use whatsapp_commerce_bot.World.Keeps.{Keeps, keeps_rules}
use whatsapp_commerce_bot.Flow.Shop.{lang_of}
use whatsapp_commerce_bot.Flow.Orders.{
  start_shop, start_orders_list, handle_order_list, handle_order_detail,
}
use whatsapp_commerce_bot.Strings.Filled.{known}
use whatsapp_commerce_bot.Flow.Invariant.Parts.{every, known_part}
use whatsapp_commerce_bot.Flow.Invariant.{IsSafe}
use whatsapp_commerce_bot.Flow.Invariant.Sends.{
  send_text-Keeps, send_main_menu-Keeps, send_orders_list-Keeps, send_order_detail-Keeps,
  send_product_list-Keeps,
}

module _ (env : Env) (phone : String) (t : ℕ) {P : World → Type 0} {L : Option Lang → Type 0}
    (safe : IsSafe env phone t P L) where
  pub start_shop-Keeps : (lang : Lang) → L (some lang) → Keeps P (start_shop env phone t lang)
  unfolding start_shop every known_part known
  start_shop-Keeps lang l =
      search
        (
          keeps_rules,
          safe.moves,
          send_text-Keeps env phone safe.sends,
          send_product_list-Keeps env phone safe.sends,
        )
        depth 20

  pub start_orders_list-Keeps :
      (lang : Lang) → L (some lang) → Keeps P (start_orders_list env phone t lang)
  unfolding start_orders_list every known_part known
  start_orders_list-Keeps lang l =
      search
        (
          keeps_rules,
          safe.moves,
          send_text-Keeps env phone safe.sends,
          send_orders_list-Keeps env phone safe.sends,
        )
        depth 20

  module _ (c : Context) (l : L c.language) (l' : L (some (lang_of c))) where
    pub handle_order_list-Keeps : (reply : Reply) → Keeps P (handle_order_list env phone t c reply)
    unfolding handle_order_list every known_part known
    handle_order_list-Keeps reply =
        search
          (
            keeps_rules,
            safe.moves,
            send_text-Keeps env phone safe.sends,
            send_orders_list-Keeps env phone safe.sends,
            send_order_detail-Keeps env phone safe.sends,
          )
          depth 20

    pub handle_order_detail-Keeps :
        (reply : Reply) → Keeps P (handle_order_detail env phone t c reply)
    unfolding handle_order_detail every known_part known
    handle_order_detail-Keeps reply =
        search
          (
            keeps_rules,
            safe.moves,
            send_text-Keeps env phone safe.sends,
            send_main_menu-Keeps env phone safe.sends,
            send_order_detail-Keeps env phone safe.sends,
          )
          depth 20
