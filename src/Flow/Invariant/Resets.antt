-- ===== src/Flow/Invariant/Resets.antt =====
-- A text that is one of RESET_KEYWORDS, in `handle_incoming` of core/commerce_flow.py.
use whatsapp_commerce_bot.Base.{
  ℕ, ◌≡◌, refl, sym, ap, subst, String, true, ◌||◌, Option, none, some, if◌then◌else◌,
}
use whatsapp_commerce_bot.Db.{Database, Lang}
use whatsapp_commerce_bot.Message.{Message, Reply}
use whatsapp_commerce_bot.Sessions.{idle, Context, Session, empty_context}
use whatsapp_commerce_bot.World.{Env, World, Action, send, set_session, get_session, on_some, ◌>>=◌}
use whatsapp_commerce_bot.World.Keeps.{Keeps}
use whatsapp_commerce_bot.Flow.Dispatch.{
  is_reset, is_menu_tap, chosen_language, menu_in, ask_language, handle_idle, handler, dispatch,
  handle_incoming,
}
use whatsapp_commerce_bot.Flow.Invariant.Parts.{Renders}
use whatsapp_commerce_bot.Flow.Invariant.Own.{session_now, Reads, session-IsSafe, moved}
use whatsapp_commerce_bot.Flow.Invariant.Sends.{send_main_menu-Keeps, send_language_prompt-Keeps}

module _ (env : Env) (phone : String) (t : ℕ) (name : String) where
  abbrev pub restarted : Option Lang → Session
  restarted o = record { state = idle; context = record empty_context { language = o } }

  -- An idle session of that language is all that is left, and the database is as it was.
  abbrev Restarts : Option Lang → Action (Unit {0}) → Type 0
  Restarts o m = (w : World) → (session_now env phone t (m w).1 ≡ restarted o) × ((m w).1.db ≡ w.db)

  abbrev Stored : Database → World → Type 0
  Stored d w = w.db ≡ d

  sends-Stored : (d : Database) (m : Message) → Renders m → Keeps (Stored d) (send env phone m)
  unfolding send
  sends-Stored d m r = record { at = λ w p. p }

  then_sends :
      (o : Option Lang) (m : Action (Unit {0}))
      → ((P : World → Type 0)
          → ((x : Message) → Renders x → Keeps P (send env phone x))
          → Keeps P m)
      → Restarts o (set_session env t phone idle (restarted o).context >>= λ u. m)
  unfolding ◌>>=◌ set_session
  then_sends o m keeps w = (
    moved env phone t idle (restarted o).context m w
        (keeps (Reads env phone t (restarted o)) (session-IsSafe env phone t (restarted o)).sends),
    (keeps (Stored w.db) (sends-Stored w.db)).at _ refl,
  )

  text-Restarts :
      (s : String) (c : Context)
      → Restarts c.language (handle_idle env phone t name (Reply.text s) c)
  unfolding handle_idle chosen_language on_some menu_in ask_language
  text-Restarts s c = go c.language
    where
      go :
          (o : Option Lang)
          → Restarts o
              (on_some o (ask_language env phone t name) (λ lang. menu_in env phone t name lang))
      go none = then_sends none _ (λ P sends. send_language_prompt-Keeps env phone sends)
      go (some lang) =
          then_sends (some lang) _ (λ P sends. send_main_menu-Keeps env phone sends name lang)

  -- A reset keyword, in any letter case and with spaces around it, ends whatever the conversation was
  -- at: the session is idle, its cart, coupon and selections are gone and only its language is left,
  -- and the database is as it was.
  pub handle_incoming-reset :
      (s : String) (w : World)
      → is_reset (Reply.text s) ≡ true
      → (session_now env phone t (handle_incoming env phone t name (Reply.text s) w).1
          ≡ restarted (session_now env phone t w).context.language)
        × ((handle_incoming env phone t name (Reply.text s) w).1.db ≡ w.db)
  unfolding handle_incoming get_session dispatch ◌>>=◌
  handle_incoming-reset s w e =
      let c = (session_now env phone t w).context in
      subst
        (λ (r : Unit {0} × World).
          (session_now env phone t r.1 ≡ restarted c.language) × (r.1.db ≡ w.db))
        (ap
          (λ b.
            (if b || is_menu_tap (Reply.text s)
                then handle_idle env phone t name (Reply.text s) c
                else handler env phone t name (session_now env phone t w).state (Reply.text s) c)
              w)
          (sym e))
        (text-Restarts s c w)
