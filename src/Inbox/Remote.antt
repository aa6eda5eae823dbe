-- ===== src/Inbox/Remote.antt =====
-- The lock of core/main.py and `RedisHistory` of core/history.py, where there is a Redis server.
use Prim.Native.String.{◌++◌ as str_append}
use whatsapp_commerce_bot.Base.{ℕ, ◌*◌, String, Bool, Option, none, some, []}
use whatsapp_commerce_bot.Redis.{Redis}
use whatsapp_commerce_bot.Inbox.{Chat, lock_ttl, lock_key, add_message}

module _ {Server : Type 0} (redis : Redis Server String) where
  abbrev remote_key : ℕ → String → String
  remote_key tenant_id phone = str_append "msg_lock:" (lock_key tenant_id phone)

  -- `_acquire_message_lock` and `_release_message_lock`
  unfoldable pub acquire_remote_lock : ℕ → ℕ → String → Server → Bool × Server
  acquire_remote_lock now tenant_id phone s =
      redis.set_nx now (remote_key tenant_id phone) lock_ttl "1" s

  unfoldable pub release_remote_lock : ℕ → String → Server → Server
  release_remote_lock tenant_id phone s = redis.delete (remote_key tenant_id phone) s

abbrev history_ttl : ℕ
history_ttl = 7 * 24 * 3600

abbrev messages : Option Chat → Chat
messages none = []
messages (some chat) = chat

module _ {Server : Type 0} (redis : Redis Server Chat) where
  abbrev history_key : String → String
  history_key phone = str_append "history:" phone

  unfoldable pub history_get : ℕ → String → Server → Chat
  history_get now phone s = messages (redis.get now (history_key phone) s)

  unfoldable pub history_add : ℕ → String → String → String → Server → Server
  history_add now phone role content s =
      redis.setex now (history_key phone) history_ttl
        (add_message (history_get now phone s) role content) s
