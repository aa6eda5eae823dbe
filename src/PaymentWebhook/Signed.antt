-- ===== src/PaymentWebhook/Signed.antt =====
-- Who can move an order through the payment webhook.
use whatsapp_commerce_bot.Base.{
  ◌≡◌, refl, ap, ◌∙◌, ◌⊎◌, inl, inr, String, true, ◌&&◌, Option, none, some, truthy, Bool-cases,
  Option-cases, arith, str_eq, eq_iff,
}
use whatsapp_commerce_bot.Base.Int.{ℤ, by_id}
use whatsapp_commerce_bot.Db.{Tenant}
use whatsapp_commerce_bot.Db.Tenants.{get_tenant}
use whatsapp_commerce_bot.Payments.{
  Payload, PaymentWebhookEvent, parse_payment_webhook, validate_payment_webhook_signature,
}
use whatsapp_commerce_bot.World.{Env, World, pure, query, ◌>>=◌, on_some}
use whatsapp_commerce_bot.World.Keeps.{on_some-found}
use whatsapp_commerce_bot.PaymentWebhook.{Response, verified, routed, receive_payment_webhook}

module _ (hmac : String → String → String) (body signature : String) where
  -- The body was signed with the secret that this tenant has on file.
  abbrev pub IsSignedFor : Tenant → Type 0
  IsSignedFor tenant =
      (secret : String) × (tenant.payment_gateway_webhook_secret ≡ some secret)
      × (hmac secret body ≡ signature)

  validated :
      (o : Option String)
      → validate_payment_webhook_signature hmac body signature o ≡ true
      → (secret : String) × (o ≡ some secret) × (hmac secret body ≡ signature)
  unfolding validate_payment_webhook_signature
  validated none h = cc
  validated (some secret) h = (secret, refl, (eq_iff (hmac secret body) signature).0 (last h))
    where
      last :
          (truthy (some secret) && truthy (some signature) && str_eq (hmac secret body) signature)
            ≡ true
          → str_eq (hmac secret body) signature ≡ true
      last h = ground arith

  module _ (env : Env) (w : World) where
    verified-signed :
        (tenant : Tenant) (order_id : ℤ) (event : PaymentWebhookEvent)
        → ((verified env hmac body signature tenant order_id event w).1 ≡ w) ⊎ IsSignedFor tenant
    unfolding verified pure
    verified-signed tenant order_id event =
        elim (Bool-cases (truthy tenant.payment_gateway_webhook_secret)) [
          | inr no_secret ↦ inl (rw no_secret refl)
          | inl has_secret ↦
              elim (Bool-cases (
                validate_payment_webhook_signature hmac body signature
                  tenant.payment_gateway_webhook_secret)) [
                    | inl right ↦ inr (validated tenant.payment_gateway_webhook_secret right)
                    | inr wrong ↦ inl (rw has_secret (rw wrong refl))
                  ]
        ]

    abbrev named_by : Option (ℤ × ℤ) → Option Tenant
    named_by none = none
    named_by (some (t, o)) = by_id (λ n. get_tenant n w.db) t

    -- The tenant that the payload names, where it is on file.
    abbrev pub named : Option Payload → Option Tenant
    named none = none
    named (some p) = named_by (parse_payment_webhook p).reference

    routed-signed :
        (event : PaymentWebhookEvent) (reference : ℤ × ℤ)
        → ((routed env hmac body signature event reference w).1 ≡ w)
          ⊎ ((tenant : Tenant) × (by_id (λ n. get_tenant n w.db) reference.0 ≡ some tenant)
              × IsSignedFor tenant)
    unfolding routed on_some query ◌>>=◌ pure
    routed-signed event (t, order_id) = elim (Option-cases (by_id (λ n. get_tenant n w.db) t)) [
      | inl missing ↦ inl (rw missing refl)
      | inr (tenant, found) ↦ elim (verified-signed tenant order_id event) [
        | inl same ↦ inl (rw found same)
        | inr signed ↦ inr (tenant, found, signed)
      ]
    ]

    -- Only a signed webhook acts: either the world is as it was, its database, sessions and messages,
    -- or the payload names a tenant on file and the body was signed with that tenant's secret.
    pub receive_payment_webhook-signed :
        (payload : Option Payload)
        → ((receive_payment_webhook env hmac body signature payload w).1 ≡ w)
          ⊎ ((tenant : Tenant) × (named payload ≡ some tenant) × IsSignedFor tenant)
    unfolding receive_payment_webhook on_some pure
    receive_payment_webhook-signed none = inl refl
    receive_payment_webhook-signed (some p) =
        elim (Option-cases (parse_payment_webhook p).reference) [
          | inl missing ↦ inl (rw missing refl)
          | inr (reference, found) ↦ elim (routed-signed (parse_payment_webhook p) reference) [
            | inl same ↦ inl (
                ap (λ (r : Response × World). r.1)
                  (on_some-found (parse_payment_webhook p).reference _ _ reference w found)
                ∙ same)
            | inr (tenant, on_file, signed) ↦ inr (tenant, ap named_by found ∙ on_file, signed)
          ]
        ]
