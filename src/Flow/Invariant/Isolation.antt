-- ===== src/Flow/Invariant/Isolation.antt =====
-- Other tenants and other conversations, over a turn of `handle_incoming` of core/commerce_flow.py.
use whatsapp_commerce_bot.Base.{ℕ, ◌≡◌, refl, ◌∙◌, ◌≢◌, String, false, ◌&&◌, Option, ◌==◌, str_eq}
use whatsapp_commerce_bot.Db.{Lang}
use whatsapp_commerce_bot.Db.Isolation.{
  Holdings, holdings, checkout_cart-other, set_customer_name-other, update_order_payment_link-other,
}
use whatsapp_commerce_bot.Message.{Reply}
use whatsapp_commerce_bot.Sessions.{State, Context, Session}
use whatsapp_commerce_bot.Sessions
use whatsapp_commerce_bot.Sessions.Laws.{get-set}
use whatsapp_commerce_bot.World.{Env, World, call, send, set_session}
use whatsapp_commerce_bot.Flow.Checkout.{place}
use whatsapp_commerce_bot.Flow.Dispatch.{handle_incoming}
use whatsapp_commerce_bot.Flow.Invariant.{IsSafe}
use whatsapp_commerce_bot.Flow.Invariant.Turn.{handle_incoming-at}

-- Every language may be written.
abbrev AnyLanguage : Option Lang → Type 0
AnyLanguage o = Unit

module _ (env : Env) (phone : String) (t : ℕ) (name : String) where
  module _ (u : ℕ) (apart : t ≢ u) where
    abbrev Holds : Holdings → World → Type 0
    Holds h w = holdings u w.db ≡ h

    holdings-IsSafe : (h : Holdings) → IsSafe env phone t (Holds h) AnyLanguage
    unfolding send set_session call place
    holdings-IsSafe h = record {
      sends = λ m r. record { at = λ w p. p };
      moves = λ s c l. record { at = λ w p. p };
      places = λ cart lang code. record {
        at = λ w p. checkout_cart-other t u apart env.clock phone cart lang code w.db ∙ p;
      };
      names = λ n. record {
        at = λ w p. set_customer_name-other t u apart phone n env.clock.now w.db ∙ p;
      };
      links = λ i url id. record {
        at = λ w p. update_order_payment_link-other t u apart i url id w.db ∙ p;
      };
    }

    -- Tenants are isolated: whatever a customer of one tenant sends and in whatever state the
    -- conversation is, another tenant's products, orders, order items, customers and coupons stay
    -- as they are, and so do the tenants.
    pub handle_incoming-holdings :
        (reply : Reply) (w : World)
        → holdings u (handle_incoming env phone t name reply w).1.db ≡ holdings u w.db
    handle_incoming-holdings reply w =
        handle_incoming-at env phone t name (holdings-IsSafe (holdings u w.db)) reply (λ lang e. tt)
          w tt tt refl

  module _ (u : ℕ) (other : String) (apart : ((t == u) && str_eq phone other) ≡ false) where
    abbrev Reads : ℕ → Session → World → Type 0
    Reads now s w = Sessions.get now u other w.sessions ≡ s

    sessions-IsSafe : (now : ℕ) (s : Session) → IsSafe env phone t (Reads now s) AnyLanguage
    unfolding send set_session call place
    sessions-IsSafe now s = record {
      sends = λ m r. record { at = λ w p. p };
      moves = λ state c l. record {
        at = λ w p. get-set env.clock.now now t u phone other state c w.sessions ∙ rw apart p;
      };
      places = λ cart lang code. record { at = λ w p. p };
      names = λ n. record { at = λ w p. p };
      links = λ i url id. record { at = λ w p. p };
    }

    -- Conversations do not meet: a message changes no session of another phone number or of
    -- another tenant, whenever that session is read.
    pub handle_incoming-sessions :
        (now : ℕ) (reply : Reply) (w : World)
        → Sessions.get now u other (handle_incoming env phone t name reply w).1.sessions
          ≡ Sessions.get now u other w.sessions
    handle_incoming-sessions now reply w =
        handle_incoming-at env phone t name
          (sessions-IsSafe now (Sessions.get now u other w.sessions)) reply (λ lang e. tt) w tt tt
          refl
