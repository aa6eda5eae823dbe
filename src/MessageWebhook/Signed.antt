-- ===== src/MessageWebhook/Signed.antt =====
-- Who can act through the message webhook.
use Prim.Native.String.{◌++◌ as str_append}
use whatsapp_commerce_bot.Base.{
  ◌≡◌, refl, ◌⊎◌, inl, inr, String, Bool, true, false, if◌then◌else◌, ◌&&◌, Option, none, some,
  truthy, is_some, str_eq, eq_iff,
}
use whatsapp_commerce_bot.Base.Text.{after_prefix}
use whatsapp_commerce_bot.Db.{Tenant}
use whatsapp_commerce_bot.World.{Env}
use whatsapp_commerce_bot.Portal.Cookie.{is_ascii}
use whatsapp_commerce_bot.PaymentWebhook.{Response}
use whatsapp_commerce_bot.MessageWebhook.{
  Change, App, validate_webhook_signature, tenant_for, answered, checked, receive_message,
}

module _ (hmac : String → String → String) (body signature : String) where
  -- The body was signed with the app secret that this tenant has on file.
  abbrev pub HasSigned : Tenant → Type 0
  HasSigned tenant =
      (secret : String) × (tenant.app_secret ≡ some secret)
      × (str_append "sha256=" (hmac secret body) ≡ signature)

  compared :
      (a b c : Bool)
      → (if a then (if b then some c else none) else some false) ≡ some true
      → c ≡ true
  compared true true c h = cc
  compared true false c h = cc
  compared false b c h = cc

  signed_with :
      (o : Option String)
      → validate_webhook_signature hmac body signature o ≡ some true
      → (secret : String) × (o ≡ some secret)
        × (str_append "sha256=" (hmac secret body) ≡ signature)
  unfolding validate_webhook_signature
  signed_with none h = cc
  signed_with (some secret) h =
      let same : Bool = str_eq (str_append "sha256=" (hmac secret body)) signature in
      (
        secret,
        refl,
        (eq_iff (str_append "sha256=" (hmac secret body)) signature).0 (
            compared (truthy (some secret) && is_some (after_prefix "sha256=" signature))
              (is_ascii signature) same h),
      )

  module _ (env : Env) (app : App) where
    abbrev Allowed : Option Tenant → Response × App → Type 0
    Allowed o r = (r.1 ≡ app) ⊎ ((tenant : Tenant) × (o ≡ some tenant) × HasSigned tenant)

    checked-Allowed :
        (change : Change) (o : Option Tenant)
        → Allowed o (checked env hmac body signature change o app)
    unfolding checked
    checked-Allowed change none = inl refl
    checked-Allowed change (some tenant) =
        by_verdict (validate_webhook_signature hmac body signature tenant.app_secret) refl
      where
        by_verdict :
            (v : Option Bool)
            → validate_webhook_signature hmac body signature tenant.app_secret ≡ v
            → Allowed (some tenant) (answered env hmac body signature change tenant app v)
        by_verdict none e = inl refl
        by_verdict (some true) e = inr (tenant, refl, signed_with tenant.app_secret e)
        by_verdict (some false) e = inl refl

    -- Only a signed message acts: either the database, the sessions, the posted messages, the locks
    -- and the history are as they were, or a tenant is found for the number that received it, and it
    -- was signed with that tenant's app secret.
    pub receive_message-signed :
        (change : Change)
        → ((receive_message env hmac body signature (some change) app).1 ≡ app)
          ⊎ ((tenant : Tenant) × (tenant_for env change.phone_number_id app.world.db ≡ some tenant)
              × HasSigned tenant)
    unfolding receive_message
    receive_message-signed change =
        checked-Allowed change (tenant_for env change.phone_number_id app.world.db)
