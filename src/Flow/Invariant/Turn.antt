-- ===== src/Flow/Invariant/Turn.antt =====
-- A whole turn of the conversation keeps what its primitives keep.
use whatsapp_commerce_bot.Base.{ℕ, ◌≡◌, refl, String, Option, none, some}
use whatsapp_commerce_bot.Db.{Lang}
use whatsapp_commerce_bot.Message.{Reply}
use whatsapp_commerce_bot.Sessions.{
  State, idle, shop_list, product_detail, post_add, cart, apply_coupon, collect_name, order_list,
  order_detail, Context, empty_context, Session,
}
use whatsapp_commerce_bot.Sessions
use whatsapp_commerce_bot.World.{Env, World, on_some, set_session, get_session, ◌>>=◌}
use whatsapp_commerce_bot.World.Keeps.{Keeps, keeps_rules, Keeps-on_some, Keeps-bind}
use whatsapp_commerce_bot.Flow.Shop.{lang_of, tapped}
use whatsapp_commerce_bot.Flow.Prompts.{send_language_prompt}
use whatsapp_commerce_bot.Flow.Dispatch.{
  chosen_language, menu_in, ask_language, menu_choice, handle_idle, handler, dispatch,
  handle_incoming,
}
use whatsapp_commerce_bot.Strings.Filled.{known}
use whatsapp_commerce_bot.Flow.Invariant.Parts.{every, known_part}
use whatsapp_commerce_bot.Flow.Invariant.{IsSafe}
use whatsapp_commerce_bot.Flow.Invariant.Sends.{
  send_text-Keeps, send_main_menu-Keeps, send_language_prompt-Keeps, send_offers-Keeps,
}
use whatsapp_commerce_bot.Flow.Invariant.Shop.{
  handle_shop_list-Keeps, handle_product_detail-Keeps, handle_post_add-Keeps, handle_cart-Keeps,
  handle_apply_coupon-Keeps, handle_collect_name-Keeps,
}
use whatsapp_commerce_bot.Flow.Invariant.Orders.{
  start_shop-Keeps, start_orders_list-Keeps, handle_order_list-Keeps, handle_order_detail-Keeps,
}

module _ (env : Env) (phone : String) (t : ℕ) (name : String) {P : World → Type 0}
    {L : Option Lang → Type 0} (safe : IsSafe env phone t P L) where
  menu_choice-Keeps :
      (lang : Lang) (rid : String) → L (some lang) → Keeps P (menu_choice env phone t name lang rid)
  unfolding menu_choice every known_part known
  menu_choice-Keeps lang rid l =
      search
        (
          keeps_rules,
          safe.moves,
          send_text-Keeps env phone safe.sends,
          send_main_menu-Keeps env phone safe.sends,
          send_offers-Keeps env phone safe.sends,
          start_shop-Keeps env phone t safe,
          start_orders_list-Keeps env phone t safe,
        )
        depth 24

  menu_in-Keeps : (lang : Lang) → L (some lang) → Keeps P (menu_in env phone t name lang)
  unfolding menu_in
  menu_in-Keeps lang l =
      search (keeps_rules, safe.moves, send_main_menu-Keeps env phone safe.sends) depth 10

  ask_language-Keeps : L none → Keeps P (ask_language env phone t name)
  unfolding ask_language
  ask_language-Keeps l =
      Keeps-bind (set_session env t phone idle empty_context) (λ _. send_language_prompt env phone)
        (safe.moves idle empty_context l) (λ _. send_language_prompt-Keeps env phone safe.sends)

  -- A language of the context, or the one whose button is tapped.
  module _ (reply : Reply)
      (chosen : (lang : Lang) → chosen_language (tapped reply) ≡ some lang → L (some lang)) where
    in_language :
        (language : Option Lang)
        → L language
        → Keeps P (
            on_some language (ask_language env phone t name) (λ lang.
              on_some
                (tapped reply)
                (menu_in env phone t name lang)
                (menu_choice env phone t name lang)))
    unfolding on_some
    in_language none l = ask_language-Keeps l
    in_language (some lang) l =
        Keeps-on_some (tapped reply) (menu_in env phone t name lang)
          (menu_choice env phone t name lang) (menu_in-Keeps lang l)
          (λ rid. menu_choice-Keeps lang rid l)

    handle_idle-Keeps :
        (c : Context) → L c.language → Keeps P (handle_idle env phone t name reply c)
    unfolding handle_idle on_some
    handle_idle-Keeps c l = go (chosen_language (tapped reply)) chosen
      where
        go :
            (o : Option Lang)
            → ((lang : Lang) → o ≡ some lang → L (some lang))
            → Keeps P (
                on_some o
                  (on_some c.language (ask_language env phone t name) (λ lang.
                    on_some
                      (tapped reply)
                      (menu_in env phone t name lang)
                      (menu_choice env phone t name lang)))
                  (menu_in env phone t name))
        go none k = in_language c.language l
        go (some lang) k = menu_in-Keeps lang (k lang refl)

    handler-Keeps :
        (s : State) (c : Context)
        → L c.language
        → L (some (lang_of c))
        → Keeps P (handler env phone t name s reply c)
    unfolding handler
    handler-Keeps idle c l l' = handle_idle-Keeps c l
    handler-Keeps shop_list c l l' = handle_shop_list-Keeps env phone t safe c l l' reply
    handler-Keeps product_detail c l l' = handle_product_detail-Keeps env phone t safe c l l' reply
    handler-Keeps post_add c l l' = handle_post_add-Keeps env phone t safe c l l' reply
    handler-Keeps cart c l l' = handle_cart-Keeps env phone t safe c l l' reply
    handler-Keeps apply_coupon c l l' = handle_apply_coupon-Keeps env phone t safe c l l' reply
    handler-Keeps collect_name c l l' = handle_collect_name-Keeps env phone t safe c l l' reply
    handler-Keeps order_list c l l' = handle_order_list-Keeps env phone t safe c l l' reply
    handler-Keeps order_detail c l l' = handle_order_detail-Keeps env phone t safe c l l' reply

    pub dispatch-Keeps :
        (s : Session)
        → L s.context.language
        → L (some (lang_of s.context))
        → Keeps P (dispatch env phone t name reply s)
    unfolding dispatch
    dispatch-Keeps s l l' =
        search (keeps_rules, handle_idle-Keeps s.context l, handler-Keeps s.state s.context l l')

    -- A whole turn, from the session that the world has.
    pub handle_incoming-at :
        (w : World)
        → L (Sessions.get env.clock.now t phone w.sessions).context.language
        → L (some (lang_of (Sessions.get env.clock.now t phone w.sessions).context))
        → P w
        → P (handle_incoming env phone t name reply w).1
    unfolding handle_incoming get_session ◌>>=◌
    handle_incoming-at w l l' =
        (dispatch-Keeps (Sessions.get env.clock.now t phone w.sessions) l l').at w
