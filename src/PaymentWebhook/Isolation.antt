-- ===== src/PaymentWebhook/Isolation.antt =====
-- What a payment webhook for one tenant leaves of the rows of another.
use whatsapp_commerce_bot.Base.{
  ℕ, ◌≡◌, refl, sym, ap, ◌∙◌, ◌≢◌, String, truthy, Bool, true, false, Option, some, List,
  Option-cases, inl, inr, arith,
}
use whatsapp_commerce_bot.Base.Int.{ℤ, pos, negsuc}
use whatsapp_commerce_bot.Base.Table.{select_one_holds}
use whatsapp_commerce_bot.Db.{Database, Tenant, Order}
use whatsapp_commerce_bot.Db.Isolation.{
  Holdings, holdings, mark_order_paid-other, mark_order_failed-other,
  update_order_payment_link-other,
}
use whatsapp_commerce_bot.Db.Orders.{mark_order_paid, mark_order_failed, update_order_payment_link}
use whatsapp_commerce_bot.Db.Tenants.{is_tenant, get_tenant}
use whatsapp_commerce_bot.Message.{Arg}
use whatsapp_commerce_bot.Payments.{
  paid, expired, failed, unknown, EventType, LinkResult, not_configured, api_error, link,
  create_payment_link, Payload, PaymentWebhookEvent, parse_payment_webhook,
}
use whatsapp_commerce_bot.World.{
  Env, World, Action, call, execute, query, send, pure, ◌>>=◌, on_some,
}
use whatsapp_commerce_bot.World.Keeps.{
  Keeps, keeps_rules, Keeps-if, Keeps-bind, Keeps-pure, on_some-found,
}
use whatsapp_commerce_bot.Flow.Prompts.{send_text}
use whatsapp_commerce_bot.Flow.Webhooks.{
  tell_customer, offer_retry, failure_notice, handle_payment_success, handle_payment_failure,
}
use whatsapp_commerce_bot.PaymentWebhook.{
  forbidden, accepted, Response, for_order, act_on, verified, routed, receive_payment_webhook,
}

module _ (env : Env) (tenant : Tenant) (u : ℕ) (apart : tenant.id ≢ u) (h : Holdings) where
  abbrev Holds : World → Type 0
  Holds w = holdings u w.db ≡ h

  tells :
      (o : Order) (key : String) (args : List (String × Arg))
      → Keeps Holds (tell_customer env o key args)
  unfolding tell_customer send_text send pure ◌>>=◌
  tells o key args = record { at = λ w p. p }

  pays :
      (i : ℕ) (r m : Option String)
      → Keeps Holds (call (mark_order_paid tenant.id i r env.clock.now m))
  unfolding call
  pays i r m = record {
    at = λ w p. mark_order_paid-other tenant.id u apart i r env.clock.now m w.db ∙ p;
  }

  fails : (i : ℕ) → Keeps Holds (call (mark_order_failed tenant.id i))
  unfolding call
  fails i = record { at = λ w p. mark_order_failed-other tenant.id u apart i w.db ∙ p }

  links :
      (i : ℕ) (url : String) (id : Option String)
      → Keeps Holds (execute (update_order_payment_link tenant.id i url id))
  unfolding call
  links i url id = record {
    at = λ w p. update_order_payment_link-other tenant.id u apart i url id w.db ∙ p;
  }

  success-Keeps :
      (i : ℕ) (r m : Option String) → Keeps Holds (handle_payment_success env tenant.id i r m)
  unfolding handle_payment_success
  success-Keeps i r m = search (keeps_rules, tells, pays) depth 12

  retry-Keeps : (o : Order) (r : LinkResult) → Keeps Holds (offer_retry env tenant o r)
  unfolding offer_retry
  retry-Keeps o not_configured = tells o _ _
  retry-Keeps o api_error = tells o _ _
  retry-Keeps o (link url id) = search (keeps_rules, tells, links) depth 8

  notice-Keeps : (b : Bool) (o : Order) → Keeps Holds (failure_notice env tenant b o)
  unfolding failure_notice
  notice-Keeps true o = retry-Keeps o (create_payment_link env tenant o)
  notice-Keeps false o = search (keeps_rules, tells) depth 8

  failure-Keeps : (i : ℕ) (b : Bool) → Keeps Holds (handle_payment_failure env tenant i b)
  unfolding handle_payment_failure
  failure-Keeps i b = search (keeps_rules, notice-Keeps, fails) depth 12

  order-Keeps :
      (i : ℤ) (f : ℕ → Action (Unit {0}))
      → ((n : ℕ) → Keeps Holds (f n))
      → Keeps Holds (for_order i f)
  order-Keeps (pos n) f k = k n
  order-Keeps (negsuc n) f k = search keeps_rules

  act_on-Keeps :
      (i : ℤ) (e : PaymentWebhookEvent) (kind : EventType)
      → Keeps Holds (act_on env tenant i e kind)
  unfolding act_on
  act_on-Keeps i e paid = order-Keeps i _ (λ n. success-Keeps n _ _)
  act_on-Keeps i e expired = order-Keeps i _ (λ n. failure-Keeps n true)
  act_on-Keeps i e failed = order-Keeps i _ (λ n. failure-Keeps n false)
  act_on-Keeps i e unknown = search keeps_rules

  verified-Keeps :
      (hmac : String → String → String) (body signature : String) (i : ℤ) (e : PaymentWebhookEvent)
      → Keeps Holds (verified env hmac body signature tenant i e)
  unfolding verified
  verified-Keeps hmac body signature i e =
      Keeps-if (truthy tenant.payment_gateway_webhook_secret) _ _
        (Keeps-if _ _ _
          (Keeps-bind _ _ (act_on-Keeps i e e.event_type) (λ done. Keeps-pure accepted))
          (Keeps-pure forbidden))
        (Keeps-pure accepted)

get_tenant-id :
    (t : ℕ) (d : Database) (tenant : Tenant) → get_tenant t d ≡ some tenant → tenant.id ≡ t
unfolding get_tenant
get_tenant-id t d tenant e =
    let own = select_one_holds (is_tenant t) d.tenants.rows e in ground (arith, own)

module _ (env : Env) (hmac : String → String → String) (body signature : String) (w : World) where
  routed-holdings :
      (t u : ℕ) (i : ℤ) (e : PaymentWebhookEvent)
      → t ≢ u
      → holdings u (routed env hmac body signature e (pos t, i) w).1.db ≡ holdings u w.db
  unfolding routed query ◌>>=◌ pure on_some
  routed-holdings t u i e apart = elim (Option-cases (get_tenant t w.db)) [
    | inl missing ↦ rw missing refl
    | inr (tenant, found) ↦ rw found (
        (verified-Keeps env tenant u
            (λ same. apart (sym (get_tenant-id t w.db tenant found) ∙ same)) (holdings u w.db) hmac
            body signature i e).at
          w refl)
  ]

  -- A payment webhook whose reference id names one tenant leaves every row of another as it is,
  -- whatever it carries else and whether or not it is signed.
  pub receive_payment_webhook-holdings :
      (t u : ℕ) (i : ℤ) (p : Payload)
      → (parse_payment_webhook p).reference ≡ some (pos t, i)
      → t ≢ u
      → holdings u (receive_payment_webhook env hmac body signature (some p) w).1.db
        ≡ holdings u w.db
  unfolding receive_payment_webhook
  receive_payment_webhook-holdings t u i p named apart =
      let event = parse_payment_webhook p in
      ap (λ (r : Response × World). holdings u r.1.db)
        (on_some-found (some p) _ _ p w refl ∙ on_some-found event.reference _ _ (pos t, i) w named)
      ∙ routed-holdings t u i event apart
