-- ===== src/MessageWebhook.antt =====
-- `receive_message` of core/main.py, from the parsed body on, with the message lock and the history.
-- HMAC is an argument.
pub mod Signed
pub mod Payload
use Prim.Native.String.{◌++◌ as str_append}
use whatsapp_commerce_bot.Base.{
  ℕ, String, Bool, true, false, ◌&&◌, Option, none, some, List, [], ◌∷◌, truthy, or_else, str_eq,
  is_some, if◌then◌else◌,
}
use whatsapp_commerce_bot.Base.Text.{after_prefix}
use whatsapp_commerce_bot.Db.{Database, Tenant}
use whatsapp_commerce_bot.Db.Tenants.{find_tenant_by_phone_number_id}
use whatsapp_commerce_bot.Message.{Reply, interactive_reply}
use whatsapp_commerce_bot.World.{Env, World, Action, get_session, ◌>>=◌}
use whatsapp_commerce_bot.Flow.Prompts.{phrase, send_text}
use whatsapp_commerce_bot.Flow.Shop.{lang_of}
use whatsapp_commerce_bot.Portal.Cookie.{is_ascii}
use whatsapp_commerce_bot.PaymentWebhook.{Response, accepted, forbidden}
use whatsapp_commerce_bot.Inbox.{
  Chat, Locks, add_message, acquire_message_lock, release_message_lock, process_message,
}

-- `change`: the number that received the message, whether it is a status update, and the first
-- message with its sender, or nothing where keys are missing.
pub record Change : Type 0 where
  pub phone_number_id : Option String
  pub has_statuses : Bool
  pub message : Option (String × Reply)

-- The world, `_message_locks` and `HISTORY`.
pub record App : Type 0 where
  pub world : World
  pub locks : Locks
  pub history : List (String × Chat)

-- `validate_webhook_signature` of core/whatsapp.py; `none` is the TypeError of `compare_digest` on a
-- text that is not ASCII.
unfoldable pub validate_webhook_signature :
    (hmac : String → String → String) → String → String → Option String → Option Bool
validate_webhook_signature hmac body signature none = some false
validate_webhook_signature hmac body signature (some secret) =
    if truthy (some secret) && is_some (after_prefix "sha256=" signature)
    then (if is_ascii signature
        then some (str_eq (str_append "sha256=" (hmac secret body)) signature)
        else none)
    else some false

-- `reply.get("text") or reply.get("title") or f"[{reply.get('type')}]"`
unfoldable pub summary : Reply → String
summary (Reply.text s) = if truthy (some s) then s else "[text]"
summary (interactive_reply id title) = if truthy (some title) then title else "[interactive_reply]"
summary Reply.audio = "[audio]"
summary (Reply.order items) = "[order]"
summary Reply.unsupported = "[unsupported]"

-- `HISTORY.add(phone, "user", …)`
unfoldable pub remember : String → String → List (String × Chat) → List (String × Chat)
remember phone content [] = (phone, add_message [] "user" content) ∷ []
remember phone content ((p, chat) ∷ chats) =
    if str_eq p phone
    then (p, add_message chat "user" content) ∷ chats
    else (p, chat) ∷ remember phone content chats

module _ (env : Env) where
  -- No transcription: the customer is told to type.
  unfoldable pub refuse_audio : Tenant → String → Action (Unit {0})
  refuse_audio tenant phone = do
    session ← get_session env tenant.id phone
    send_text env phone (phrase (lang_of session.context) "audio_not_supported")

  -- The message is handled while its lock is held.
  unfoldable pub locked : Tenant → String → Reply → App → App
  locked tenant phone reply app =
      let (acquired, locks) = acquire_message_lock env.clock.now tenant.id phone app.locks in
      if acquired
      then record {
        world = (process_message env tenant phone reply app.world).1;
        locks = release_message_lock tenant.id phone locks;
        history = remember phone (summary reply) app.history;
      }
      else app

  unfoldable pub deliver : Tenant → String → Reply → App → App
  deliver tenant phone Reply.audio app = record app {
    world = (refuse_audio tenant phone app.world).1;
  }
  deliver tenant phone (Reply.text s) app = locked tenant phone (Reply.text s) app
  deliver tenant phone (interactive_reply id title) app =
      locked tenant phone (interactive_reply id title) app
  deliver tenant phone (Reply.order items) app = locked tenant phone (Reply.order items) app
  deliver tenant phone Reply.unsupported app = locked tenant phone Reply.unsupported app

  abbrev pub tenant_for : Option String → Database → Option Tenant
  tenant_for none d = none
  tenant_for (some id) d = find_tenant_by_phone_number_id id d

  abbrev pub deliver_first : Tenant → Option (String × Reply) → App → App
  deliver_first tenant none app = app
  deliver_first tenant (some (phone, reply)) app = deliver tenant phone reply app

  module _ (hmac : String → String → String) (body signature : String) where
    abbrev pub answered : Change → Tenant → App → Option Bool → Response × App
    answered change tenant app none = (accepted, app)
    answered change tenant app (some false) = (forbidden, app)
    answered change tenant app (some true) =
        (accepted, if change.has_statuses then app else deliver_first tenant change.message app)

    unfoldable pub checked : Change → Option Tenant → App → Response × App
    checked change none app = (accepted, app)
    checked change (some tenant) app =
        answered change tenant app
          (validate_webhook_signature hmac body signature tenant.app_secret)

    -- A malformed body is `none`.
    unfoldable pub receive_message : Option Change → App → Response × App
    receive_message none app = (accepted, app)
    receive_message (some change) app =
        checked change (tenant_for change.phone_number_id app.world.db) app
