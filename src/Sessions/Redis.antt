-- ===== src/Sessions/Redis.antt =====
-- `RedisSessionStore` of core/history.py: its sessions are kept by the server that Redis describes.
pub mod Refines
use Prim.Native.String.{◌++◌ as str_append}
use whatsapp_commerce_bot.Base.{
  ℕ, ◌+◌, ◌≡◌, ◌≤◌, String, Bool, Option, none, some, ltb, str_eq, if◌then◌else◌,
}
use whatsapp_commerce_bot.Sessions.{State, Context, Session, timeout, default_session, has_expired}
use whatsapp_commerce_bot.Redis.{Redis}
use whatsapp_commerce_bot.Inbox.{lock_key}

-- The dictionary that `set` writes.
pub record Document : Type 0 where
  pub session : Session
  pub updated_at : ℕ

-- `_key`
unfoldable pub session_key : ℕ → String → String
session_key tenant_id phone = str_append "session:" (lock_key tenant_id phone)

abbrev pub live_document : ℕ → Option Document → Session
live_document now none = default_session
live_document now (some v) = if has_expired now v.updated_at then default_session else v.session

module _ {Server : Type 0} (redis : Redis Server Document) where
  unfoldable pub redis_get : ℕ → ℕ → String → Server → Session
  redis_get now tenant_id phone s =
      live_document now (redis.get now (session_key tenant_id phone) s)

  unfoldable pub redis_set : ℕ → ℕ → String → State → Context → Server → Server
  redis_set now tenant_id phone state context s =
      redis.setex now (session_key tenant_id phone) (timeout + 300)
        (record { session = record { state = state; context = context }; updated_at = now }) s

  unfoldable pub redis_reset : ℕ → String → Server → Server
  redis_reset tenant_id phone s = redis.delete (session_key tenant_id phone) s
