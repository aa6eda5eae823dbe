-- ===== src/Flow/Invariant.antt =====
-- What every conversation handler keeps: it is built from a few primitive actions, so a property that
-- these keep is kept by a whole turn of the conversation.
pub mod Parts
pub mod Texts
pub mod Sends
pub mod Checkout
pub mod Shop
pub mod Orders
pub mod Turn
pub mod Language
pub mod Isolation
pub mod Own
pub mod Answers
pub mod Twice
pub mod Resets
pub mod Adds
pub mod Pages
use whatsapp_commerce_bot.Base.{ℕ, String, Option}
use whatsapp_commerce_bot.Db.{Lang}
use whatsapp_commerce_bot.Db.Customers.{set_customer_name}
use whatsapp_commerce_bot.Db.Orders.{update_order_payment_link}
use whatsapp_commerce_bot.Db.Checkout.{Cart}
use whatsapp_commerce_bot.Message.{Message}
use whatsapp_commerce_bot.Sessions.{State, Context}
use whatsapp_commerce_bot.World.{Env, World, call, execute, send, set_session}
use whatsapp_commerce_bot.World.Keeps.{Keeps}
use whatsapp_commerce_bot.Flow.Checkout.{place}
use whatsapp_commerce_bot.Flow.Invariant.Parts.{Renders}

-- `P` is kept by the primitives of a turn of one customer of one tenant. A context is written only
-- with a language that `L` admits.
pub record IsSafe (env : Env) (phone : String) (tenant_id : ℕ) (P : World → Type 0)
    (L : Option Lang → Type 0) : Type 0 where
  pub sends : (m : Message) → Renders m → Keeps P (send env phone m)
  pub moves :
      (s : State) (c : Context) → L c.language → Keeps P (set_session env tenant_id phone s c)
  pub places :
      (cart : Cart) (lang : Lang) (code : Option String)
      → Keeps P (place env phone tenant_id cart lang code)
  pub names :
      (name : String) → Keeps P (call (set_customer_name tenant_id phone name env.clock.now))
  pub links :
      (order_id : ℕ) (url : String) (id : Option String)
      → Keeps P (execute (update_order_payment_link tenant_id order_id url id))
