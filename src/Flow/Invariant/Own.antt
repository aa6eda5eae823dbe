-- ===== src/Flow/Invariant/Own.antt =====
-- The customer's own session: what it reads after a write, and that nothing but a write changes it.
use whatsapp_commerce_bot.Base.{ℕ, ◌≡◌, refl, ◌∙◌, String, true, ◌&&◌, arith, str_eq, ◌==◌, eq_iff}
use whatsapp_commerce_bot.Sessions.{State, Context, Session, has_expired}
use whatsapp_commerce_bot.Sessions
use whatsapp_commerce_bot.Sessions.Laws.{get-set}
use whatsapp_commerce_bot.World.{Env, World, Action, call, send, set_session, ◌>>=◌}
use whatsapp_commerce_bot.World.Keeps.{Keeps}
use whatsapp_commerce_bot.Flow.Checkout.{place}
use whatsapp_commerce_bot.Flow.Invariant.{IsSafe}

module _ (env : Env) (phone : String) (t : ℕ) where
  abbrev pub session_now : World → Session
  session_now w = Sessions.get env.clock.now t phone w.sessions

  own_key : ((t == t) && str_eq phone phone) ≡ true
  own_key = ground (arith, (eq_iff phone phone).1 refl)

  pub written :
      (state : State) (c : Context) (w : World)
      → session_now (set_session env t phone state c w).1 ≡ record { state = state; context = c }
  unfolding set_session has_expired
  written state c w =
      get-set env.clock.now env.clock.now t t phone phone state c w.sessions
      ∙ ground (arith, own_key)

  abbrev pub Reads : Session → World → Type 0
  Reads s w = session_now w ≡ s

  -- Where no session is written.
  pub session-IsSafe : (s : Session) → IsSafe env phone t (Reads s) (λ o. ⊥)
  unfolding send call place
  session-IsSafe s = record {
    sends = λ m r. record { at = λ w p. p };
    moves = λ state c l. absurd l;
    places = λ cart lang code. record { at = λ w p. p };
    names = λ n. record { at = λ w p. p };
    links = λ i url id. record { at = λ w p. p };
  }

  -- A write of the session, and then an action that writes none.
  pub moved :
      (state : State) (c : Context) (m : Action (Unit {0})) (w : World)
      → Keeps (Reads (record { state = state; context = c })) m
      → session_now ((set_session env t phone state c >>= λ u. m) w).1
        ≡ record { state = state; context = c }
  unfolding ◌>>=◌
  moved state c m w k = k.at (set_session env t phone state c w).1 (written state c w)
