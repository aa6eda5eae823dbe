-- ===== src/Flow/Invariant/Language.antt =====
-- The language of a conversation, over a turn of `handle_incoming` of core/commerce_flow.py.
use whatsapp_commerce_bot.Base.{ℕ, ◌≡◌, refl, ap, ◌∙◌, String, Option, some}
use whatsapp_commerce_bot.Db.{Lang}
use whatsapp_commerce_bot.Message.{Reply}
use whatsapp_commerce_bot.Sessions.{State, Context, Session, has_expired}
use whatsapp_commerce_bot.Sessions
use whatsapp_commerce_bot.World.{Env, World, call, send, set_session}
use whatsapp_commerce_bot.Flow.Checkout.{place}
use whatsapp_commerce_bot.Flow.Shop.{tapped}
use whatsapp_commerce_bot.Flow.Dispatch.{chosen_language, handle_incoming}
use whatsapp_commerce_bot.Flow.Invariant.{IsSafe}
use whatsapp_commerce_bot.Flow.Invariant.Own.{written}
use whatsapp_commerce_bot.Flow.Invariant.Turn.{handle_incoming-at}

module _ (env : Env) (phone : String) (t : ℕ) (lang : Lang) where
  abbrev pub language_now : World → Option Lang
  language_now w = (Sessions.get env.clock.now t phone w.sessions).context.language

  abbrev Speaks : World → Type 0
  Speaks w = language_now w ≡ some lang

  language-IsSafe : IsSafe env phone t Speaks (λ o. o ≡ some lang)
  unfolding send set_session call place
  language-IsSafe = record {
    sends = λ m r. record { at = λ w p. p };
    moves = λ state c l. record {
      at = λ w p. ap (λ (s : Session). s.context.language) (written env phone t state c w) ∙ l;
    };
    places = λ cart code_lang code. record { at = λ w p. p };
    names = λ n. record { at = λ w p. p };
    links = λ i url id. record { at = λ w p. p };
  }

  -- A conversation stays in its language: once the live session has one, no message but a tap on
  -- the button of another language changes it, in any state of the conversation.
  pub handle_incoming-language :
      (name : String) (reply : Reply) (w : World)
      → ((other : Lang) → chosen_language (tapped reply) ≡ some other → other ≡ lang)
      → language_now w ≡ some lang
      → language_now (handle_incoming env phone t name reply w).1 ≡ some lang
  handle_incoming-language name reply w no_other has =
      handle_incoming-at env phone t name language-IsSafe reply (λ l e. ap some (no_other l e)) w
        has (rw has refl) has
