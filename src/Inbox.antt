-- ===== src/Inbox.antt =====
-- What core/main.py does around a conversation's turn: the lock that each customer's messages wait on
-- (the in-memory fallback), the chat's history (core/history.py), and `_process_message`.
pub mod Locks
pub mod Recent
pub mod Remote
use Prim.Native.String.{◌++◌ as str_append}
use whatsapp_commerce_bot.Base.{
  ℕ, ◌+◌, ◌-◌, String, Bool, true, false, Option, none, some, List, [], ◌∷◌, ◌++◌, length, drop,
  ltb, str_eq, truthy, or_else, if◌then◌else◌,
}
use whatsapp_commerce_bot.Base.Numeral.{decimal}
use whatsapp_commerce_bot.Db.{Tenant}
use whatsapp_commerce_bot.Message.{Reply, interactive_reply}
use whatsapp_commerce_bot.World.{Env, World, Action}
use whatsapp_commerce_bot.Flow.Dispatch.{handle_incoming}
use whatsapp_commerce_bot.Flow.Native.{handle_native_order}

-- `_message_locks`: the keys with the times at which the locks expire.
abbrev pub Locks : Type 0
Locks = List (String × ℕ)

-- The default of `ttl`.
abbrev pub lock_ttl : ℕ
lock_ttl = 15

unfoldable pub lock_key : ℕ → String → String
lock_key tenant_id phone = str_append (decimal tenant_id) (str_append ":" phone)

unfoldable pub expiry_of : String → Locks → ℕ
expiry_of key [] = 0
expiry_of key ((k, expiry) ∷ locks) = if str_eq k key then expiry else expiry_of key locks

unfoldable pub hold : String → ℕ → Locks → Locks
hold key expiry [] = (key, expiry) ∷ []
hold key expiry ((k, e) ∷ locks) =
    if str_eq k key then (k, expiry) ∷ locks else (k, e) ∷ hold key expiry locks

unfoldable pub acquire_message_lock : ℕ → ℕ → String → Locks → Bool × Locks
acquire_message_lock now tenant_id phone locks =
    let key = lock_key tenant_id phone in
    if ltb now (expiry_of key locks)
    then (false, locks)
    else (true, hold key (now + lock_ttl) locks)

-- `pop(key, None)`
unfoldable pub release_message_lock : ℕ → String → Locks → Locks
release_message_lock tenant_id phone [] = []
release_message_lock tenant_id phone ((k, e) ∷ locks) =
    if str_eq k (lock_key tenant_id phone)
    then locks
    else (k, e) ∷ release_message_lock tenant_id phone locks

-- A message of the history: its role and its content.
abbrev pub Chat : Type 0
Chat = List (String × String)

abbrev pub max_messages : ℕ
max_messages = 20

-- `InMemoryHistory.add` for one phone: `store[-max:]` where there are more.
unfoldable pub add_message : Chat → String → String → Chat
add_message chat role content =
    let longer = chat ++ (role, content) ∷ [] in
    if ltb max_messages (length longer) then drop (length longer - max_messages) longer else longer

-- `_process_message`, after the history's entry.
unfoldable pub process_message : Env → Tenant → String → Reply → Action (Unit {0})
process_message env tenant phone (Reply.order items) = handle_native_order env tenant phone items
process_message env tenant phone (Reply.text s) =
    handle_incoming env phone tenant.id tenant.name (Reply.text s)
process_message env tenant phone (interactive_reply id title) =
    handle_incoming env phone tenant.id tenant.name (interactive_reply id title)
process_message env tenant phone Reply.audio =
    handle_incoming env phone tenant.id tenant.name Reply.audio
process_message env tenant phone Reply.unsupported =
    handle_incoming env phone tenant.id tenant.name Reply.unsupported
