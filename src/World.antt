-- ===== src/World.antt =====
-- What a handler of core/commerce_flow.py reads and changes: the database, the sessions and the
-- messages that it has posted. A handler is an action on these.
pub mod Keeps
use whatsapp_commerce_bot.Base.{ℕ, String, Bool, Option, none, some, List, ◌∷◌}
use whatsapp_commerce_bot.Db.{Database, Clock}
use whatsapp_commerce_bot.Message.{Message, Sent}
use whatsapp_commerce_bot.Phone.{normalize_phone}
use whatsapp_commerce_bot.Sessions.{Sessions, Session, State, Context}
use whatsapp_commerce_bot.Sessions

-- The request that payments.py makes of Razorpay.
pub record LinkRequest : Type 0 where
  pub key_id : String
  pub key_secret : String
  pub amount : ℕ
  pub order_id : ℕ
  pub contact : String
  pub reference_id : String

-- The answers of what is not the bot's own code: the clock, whether Meta accepts a message, and the
-- link (its URL and its id) that Razorpay gives, or `none` for an exception.
pub record Env : Type 0 where
  pub clock : Clock
  pub accepts : Sent → Bool
  pub gateway : LinkRequest → Option (String × String)

-- `sent` has the newest message first.
pub record World : Type 0 where
  pub db : Database
  pub sessions : Sessions
  pub sent : List Sent

abbrev pub Action : Type 0 → Type 0
Action A = World → A × World

module _ {A : Type 0} where
  unfoldable pub pure : A → Action A
  pure a w = (a, w)

  -- A call of the repository that only reads.
  unfoldable pub query : (Database → A) → Action A
  query f w = (f w.db, w)

  -- A call of the repository that may write.
  unfoldable pub call : (Database → A × Database) → Action A
  call f w = let (a, d) = f w.db in (a, record w { db = d })

infixl 5 ◌>>=◌ ◌>>◌
unfoldable pub ◌>>=◌ : {A B : Type 0} → Action A → (A → Action B) → Action B
unfolding pure query call
◌>>=◌ m f w = let (a, w') = m w in f a w'

abbrev pub ◌>>◌ : {A B : Type 0} → Action A → Action B → Action B
m >> n = m >>= λ _. n

-- An update of the repository that returns nothing.
abbrev pub execute : (Database → Database) → Action (Unit {0})
execute f = call (λ d. (tt, f d))

abbrev pub skip : Action (Unit {0})
skip = pure tt

-- The branches on `None`.
unfoldable pub on_some : {A B : Type 0} → Option A → Action B → (A → Action B) → Action B
on_some none missing found = missing
on_some (some a) missing found = found a

module _ (env : Env) where
  unfoldable pub get_session : ℕ → String → Action Session
  get_session tenant_id phone w = (Sessions.get env.clock.now tenant_id phone w.sessions, w)

  unfoldable pub set_session : ℕ → String → State → Context → Action (Unit {0})
  set_session tenant_id phone state context w = (
    tt,
    record w { sessions = Sessions.set env.clock.now tenant_id phone state context w.sessions },
  )

  abbrev pub addressed : String → Message → Sent
  addressed to message = record { to = normalize_phone to; message = message }

  -- `WhatsAppClient`'s `send_text`, `send_buttons`, `send_list` and `send_product_list`: the message
  -- is posted, and a failure is logged; only `send_product_list`'s callers look at the result.
  unfoldable pub send : String → Message → Action Bool
  send to message w =
      (env.accepts (addressed to message), record w { sent = addressed to message ∷ w.sent })
