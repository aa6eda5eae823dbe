-- ===== src/Tests/Jobs.antt =====
-- The theorems on reminders, on the payment webhook and on the inbox, on the small shop.
use whatsapp_commerce_bot.Base.{
  ◌+◌, ◌≤◌, ◌≡◌, refl, ◌⊎◌, String, not, ◌&&◌, none, some, [], ◌∷◌, ◌++◌, length, ltb, str_eq, ◌==◌,
  if◌then◌else◌,
}
use Prim.Native.String.{◌++◌ as str_append}
use whatsapp_commerce_bot.Db.{Tenant}
use whatsapp_commerce_bot.Sessions.{cart}
use whatsapp_commerce_bot.Payments.{
  Payload, parse_payment_webhook, parse_reference_id, extract_reference_id, partition,
}
use whatsapp_commerce_bot.Base.Numeral.{int}
use whatsapp_commerce_bot.Base.Int.{pos}
use whatsapp_commerce_bot.Db.Isolation.{holdings}
use whatsapp_commerce_bot.PaymentWebhook.Isolation.{receive_payment_webhook-holdings}
use native.Mathlib.Omega.{arith}
use whatsapp_commerce_bot.Reminders.Endpoint.{
  Counts, forbidden, nudged, trigger_abandoned_cart_nudges,
}
use whatsapp_commerce_bot.Reminders.Again.{trigger_abandoned_cart_nudges-again}
use whatsapp_commerce_bot.PaymentWebhook.{receive_payment_webhook}
use whatsapp_commerce_bot.PaymentWebhook.Signed.{IsSignedFor, named, receive_payment_webhook-signed}
use whatsapp_commerce_bot.Base.{false}
use whatsapp_commerce_bot.Message.{Reply}
use whatsapp_commerce_bot.MessageWebhook.{App, Change, tenant_for, receive_message}
use whatsapp_commerce_bot.MessageWebhook.Signed.{HasSigned, receive_message-signed}
use whatsapp_commerce_bot.Inbox.{Chat, max_messages, lock_ttl, add_message, acquire_message_lock}
use whatsapp_commerce_bot.Inbox.Recent.{add_message-recent}
use whatsapp_commerce_bot.Inbox.Locks.{is_free, acquire_message_lock-excludes}
use whatsapp_commerce_bot.Tests.{clock, Env, phone, env, world}

-- The pending order is old enough for a nudge at this time.
abbrev later : Env
later = record env { clock = record clock { now = 100000 } }

trigger_abandoned_cart_nudges-again_example :
    let w' = (trigger_abandoned_cart_nudges later "cron" "cron" (world cart)).1 in
    let again = trigger_abandoned_cart_nudges later "cron" "cron" w' in
    (again ≡ (forbidden, w')) ⊎ ((by_tenant : Counts) × (again ≡ (nudged 0 by_tenant, w')))
trigger_abandoned_cart_nudges-again_example =
    trigger_abandoned_cart_nudges-again later "cron" "cron" (world cart)

-- A digest that is a text put together, and a payload for the pending order.
abbrev digest : String → String → String
digest secret body = str_append secret body

abbrev payload : Payload
payload = record {
  event = "payment_link.paid";
  payment_link = record {
    id = some "plink_1";
    reference_id = some "1:7";
    notes_reference_id = none;
    method = none;
  };
  payment = record {
    id = some "pay_1";
    reference_id = none;
    notes_reference_id = none;
    method = some "upi";
  };
}

receive_payment_webhook-signed_example :
    ((receive_payment_webhook env digest "body" "forged" (some payload) (world cart)).1
      ≡ world cart)
    ⊎ ((tenant : Tenant) × (named digest "body" "forged" env (world cart) (some payload)
          ≡ some tenant)
        × IsSignedFor digest "body" "forged" tenant)
receive_payment_webhook-signed_example =
    receive_payment_webhook-signed digest "body" "forged" env (world cart) (some payload)

abbrev chat : Chat
chat = ("user", "hi") ∷ ("user", "menu_shop") ∷ []

add_message-recent_example :
    (length (add_message chat "user" "menu") ≤ max_messages)
    × (length (add_message chat "user" "menu") ≡ (
        if ltb max_messages (length (chat ++ ("user", "menu") ∷ []))
        then max_messages
        else length (chat ++ ("user", "menu") ∷ [])))
    × ((old : Chat) × (chat ++ ("user", "menu") ∷ [] ≡ old ++ add_message chat "user" "menu"))
add_message-recent_example = add_message-recent chat "user" "menu"

-- Ten seconds later, the same customer's message does not get the lock.
acquire_message_lock-excludes_example :
    is_free 110 1 phone (acquire_message_lock 100 1 phone []).1 ≡ (
      if is_free 100 1 phone [] && ((1 == 1) && str_eq phone phone)
      then not (ltb 110 (100 + lock_ttl))
      else is_free 110 1 phone [])
acquire_message_lock-excludes_example = acquire_message_lock-excludes 100 110 1 1 phone phone []

named_shop : (parse_payment_webhook payload).reference ≡ some (pos 1, pos 7)
unfolding parse_payment_webhook parse_reference_id extract_reference_id partition int
named_shop = refl

receive_payment_webhook-holdings_example :
    holdings 2 (receive_payment_webhook env digest "body" "forged" (some payload) (world cart)).1.db
    ≡ holdings 2 (world cart).db
receive_payment_webhook-holdings_example =
    receive_payment_webhook-holdings env digest "body" "forged" (world cart) 1 2 (pos 7) payload
      named_shop (omega arith)

abbrev app : App
app = record { world = world cart; locks = []; history = [] }

abbrev change : Change
change = record {
  phone_number_id = some "100";
  has_statuses = false;
  message = some (phone, Reply.text "hi");
}

receive_message-signed_example :
    ((receive_message env digest "body" "sha256=forged" (some change) app).1 ≡ app)
    ⊎ ((tenant : Tenant) × (tenant_for env change.phone_number_id app.world.db ≡ some tenant)
        × HasSigned digest "body" "sha256=forged" tenant)
receive_message-signed_example = receive_message-signed digest "body" "sha256=forged" env app change
