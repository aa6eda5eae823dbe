-- ===== src/Flow/Invariant/Twice.antt =====
-- A tap on checkout that comes twice, for `handle_incoming` and `_checkout` of core/commerce_flow.py.
use whatsapp_commerce_bot.Base.{
  ℕ, ◌≡◌, refl, sym, ap, ◌∙◌, ◌⊎◌, inl, inr, subst, String, Bool, true, false, Option, none, some,
  is_empty, if◌then◌else◌,
}
use whatsapp_commerce_bot.Db.{Database, Lang}
use whatsapp_commerce_bot.Db.Customers.{get_customer}
use whatsapp_commerce_bot.Db.Checkout.{Cart}
use whatsapp_commerce_bot.Message.{Message, Reply, interactive_reply}
use whatsapp_commerce_bot.Sessions.{State, idle, collect_name, Context, Session, empty_context}
use whatsapp_commerce_bot.World.{
  Env, World, Action, query, send, set_session, get_session, on_some, ◌>>=◌,
}
use whatsapp_commerce_bot.World.Keeps.{Keeps, Keeps-bind, Keeps-if, Keeps-on_some}
use whatsapp_commerce_bot.Flow.Checkout.{checkout, start_checkout, with_language}
use whatsapp_commerce_bot.Flow.Prompts.{send_text, phrase}
use whatsapp_commerce_bot.Flow.Shop.{lang_of, typed, cart_of, handle_cart, handle_collect_name}
use whatsapp_commerce_bot.Flow.Dispatch.{
  is_reset, is_menu_tap, chosen_language, menu_in, ask_language, menu_choice, handle_idle, handler,
  dispatch, handle_incoming,
}
use whatsapp_commerce_bot.Flow.Rows.{is_main_menu_id}
use whatsapp_commerce_bot.Flow.Invariant.Parts.{Renders, every, known_part}
use whatsapp_commerce_bot.Strings.Filled.{known}
use whatsapp_commerce_bot.Flow.Invariant.Own.{session_now, Reads, session-IsSafe, moved}
use whatsapp_commerce_bot.Flow.Invariant.Sends.{
  send_text-Keeps, send_main_menu-Keeps, send_language_prompt-Keeps,
}
use whatsapp_commerce_bot.Flow.Invariant.Checkout.{complete_checkout_from_cart-Keeps}

module _ (env : Env) (phone : String) (t : ℕ) where
  abbrev idle_in : Lang → Session
  idle_in lang = record { state = idle; context = with_language lang }

  -- A checkout leaves an idle session: the cart is gone from it, whatever became of the order.
  checkout-Reads :
      (cart : Cart) (lang : Lang) (code : Option String) (w : World)
      → Reads env phone t (idle_in lang) (checkout env phone t cart lang code w).1
  unfolding checkout every known_part known
  checkout-Reads items lang code w = moved env phone t idle (with_language lang) _ w (
      Keeps-if (is_empty items) _ _
        (send_text-Keeps env phone (session-IsSafe env phone t (idle_in lang)).sends _ refl)
        (complete_checkout_from_cart-Keeps env phone t (session-IsSafe env phone t (idle_in lang))
          items lang code))

  -- The session is one in which a tap on checkout orders nothing.
  abbrev IsPast : World → Type 0
  IsPast w =
      ((session_now env phone t w).state ≡ idle)
      ⊎ ((session_now env phone t w).state ≡ collect_name)

  if-IsPast :
      (b : Bool) (m n : Action (Unit {0})) (w : World)
      → IsPast (m w).1
      → IsPast (n w).1
      → IsPast ((if b then m else n) w).1
  if-IsPast true m n w h k = h
  if-IsPast false m n w h k = k

  on_some-IsPast :
      {A : Type 0} (o : Option A) (m : Action (Unit {0})) (f : A → Action (Unit {0})) (w : World)
      → IsPast (m w).1
      → ((a : A) → IsPast (f a w).1)
      → IsPast (on_some o m f w).1
  unfolding on_some
  on_some-IsPast none m f w h k = h
  on_some-IsPast (some a) m f w h k = k a

  start_checkout-IsPast :
      (cart : Cart) (lang : Lang) (code : Option String) (w : World)
      → IsPast (start_checkout env phone t cart lang code w).1
  unfolding start_checkout ◌>>=◌ query every known_part known
  start_checkout-IsPast items lang code w = if-IsPast (is_empty items) _ _ w ended (
      on_some-IsPast (get_customer t phone w.db) _ _ w (inr (ap (λ s. s.state) asked)) (λ c. ended))
    where
      ended : IsPast (checkout env phone t items lang code w).1
      ended = inl (ap (λ s. s.state) (checkout-Reads items lang code w))

      waiting : Session
      waiting = record {
        state = collect_name;
        context = record empty_context {
          language = some lang;
          cart = some items;
          coupon_code = code;
        };
      }

      asked :
          session_now env phone t
            ((set_session env t phone collect_name waiting.context >>= λ u.
                send_text env phone (phrase lang "ask_customer_name"))
              w).1
          ≡ waiting
      asked =
          moved env phone t collect_name waiting.context _ w
            (send_text-Keeps env phone (session-IsSafe env phone t waiting).sends _ refl)

  module _ (name title : String) where
    abbrev tap : Reply
    tap = interactive_reply "checkout" title

    abbrev Stored : Database → World → Type 0
    Stored d w = w.db ≡ d

    sends-Stored : (d : Database) (m : Message) → Renders m → Keeps (Stored d) (send env phone m)
    unfolding send
    sends-Stored d m r = record { at = λ w p. p }

    moves-Stored :
        (d : Database) (s : State) (c : Context) → Keeps (Stored d) (set_session env t phone s c)
    unfolding set_session
    moves-Stored d s c = record { at = λ w p. p }

    idle-Stored :
        (d : Database) (c : Context) → Keeps (Stored d) (handle_idle env phone t name tap c)
    unfolding handle_idle menu_choice menu_in ask_language chosen_language on_some
    idle-Stored d c =
        Keeps-on_some c.language _ _
          (Keeps-bind _ _ (moves-Stored d idle empty_context)
            (λ u. send_language_prompt-Keeps env phone (sends-Stored d)))
          (λ lang.
            Keeps-bind _ _ (moves-Stored d idle (with_language lang))
              (λ u. send_main_menu-Keeps env phone (sends-Stored d) name lang))

    collect-Stored :
        (d : Database) (c : Context) → Keeps (Stored d) (handle_collect_name env phone t c tap)
    unfolding handle_collect_name typed every known_part known
    collect-Stored d c =
        Keeps-bind _ _ (moves-Stored d collect_name c)
          (λ u. send_text-Keeps env phone (sends-Stored d) _ refl)

    abbrev tapped_once : World → World
    tapped_once w = (handle_incoming env phone t name tap w).1

    by_state :
        (w : World) (s : State) (c : Context)
        → session_now env phone t w ≡ record { state = s; context = c }
        → tapped_once w ≡ (handler env phone t name s tap c w).1
    unfolding handle_incoming get_session dispatch ◌>>=◌ is_reset is_menu_tap is_main_menu_id
    by_state w s c e = ap (λ x. (handler env phone t name x.state tap x.context w).1) e

    first_tap :
        (w : World) → (session_now env phone t w).state ≡ State.cart → IsPast (tapped_once w)
    unfolding handler handle_cart on_some
    first_tap w e =
        let c = (session_now env phone t w).context in
        subst IsPast (sym (by_state w State.cart c (ap (λ s. record { state = s; context = c }) e)))
          (start_checkout-IsPast (cart_of c) (lang_of c) c.coupon_code w)

    next_tap : (w : World) → IsPast w → (tapped_once w).db ≡ w.db
    unfolding handler
    next_tap w (inl e) =
        let c = (session_now env phone t w).context in
        ap (λ v. v.db) (by_state w idle c (ap (λ s. record { state = s; context = c }) e))
        ∙ (idle-Stored w.db c).at w refl
    next_tap w (inr e) =
        let c = (session_now env phone t w).context in
        ap (λ v. v.db) (by_state w collect_name c (ap (λ s. record { state = s; context = c }) e))
        ∙ (collect-Stored w.db c).at w refl

    -- A second tap on checkout orders nothing: after a tap in the cart, another one, however the first
    -- went, leaves the database as the first left it.
    pub checkout_tap-twice :
        (w : World)
        → (session_now env phone t w).state ≡ State.cart
        → (tapped_once (tapped_once w)).db ≡ (tapped_once w).db
    checkout_tap-twice w e = next_tap (tapped_once w) (first_tap w e)
