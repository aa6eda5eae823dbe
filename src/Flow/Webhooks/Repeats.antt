-- ===== src/Flow/Webhooks/Repeats.antt =====
-- Deliveries of payment webhooks that repeat or overtake one another, in `handle_payment_success` and
-- `handle_payment_failure` of core/commerce_flow.py.
use whatsapp_commerce_bot.Base.{
  ℕ, ◌≡◌, refl, ◌∙◌, inl, inr, String, Bool, true, false, Option, some, List, [], arith,
  Option-cases, if◌then◌else◌,
}
use whatsapp_commerce_bot.Base.Table.{
  any_row, any_row-update_where, any_row-update_where_keep, any_row-narrow, update_where,
  update_where-none,
}
use whatsapp_commerce_bot.Db.{Tenant, Order, failed}
use whatsapp_commerce_bot.Db.Orders.{
  is_order, get_order, payable, paid_row, failable, mark_order_paid, mark_order_failed,
  update_order_payment_link,
}
use whatsapp_commerce_bot.Message.{Arg}
use whatsapp_commerce_bot.Payments.{
  LinkResult, not_configured, api_error, link, create_payment_link,
}
use whatsapp_commerce_bot.World.{Env, World, call, execute, query, on_some, skip, pure, ◌>>=◌, send}
use whatsapp_commerce_bot.World.Keeps.{Keeps, keeps_rules, Keeps-bind}
use whatsapp_commerce_bot.Flow.Prompts.{send_text}
use whatsapp_commerce_bot.Flow.Webhooks.{
  tell_customer, offer_retry, failure_notice, handle_payment_success, handle_payment_failure,
}

-- No order with this id can still be marked paid, or failed.
abbrev NoFailable : ℕ → ℕ → World → Type 0
NoFailable t i w = any_row (failable t i) w.db.orders.rows ≡ false

abbrev NoPayable : ℕ → ℕ → World → Type 0
NoPayable t i w = any_row (payable t i) w.db.orders.rows ≡ false

abbrev Settled : ℕ → ℕ → World → Type 0
Settled t i w = NoPayable t i w × NoFailable t i w

by_db : (t i : ℕ) (w w' : World) → w'.db ≡ w.db → Settled t i w → Settled t i w'
by_db t i w w' e h = rw e h

paid_rows :
    (t i : ℕ) (r m : Option String) (at : ℕ) (w : World)
    → Settled t i (record w { db = (mark_order_paid t i r at m w.db).1 })
unfolding mark_order_paid
paid_rows t i r m at w = (
  any_row-update_where (payable t i) (payable t i) (paid_row r at m) (λ o. ground arith)
      w.db.orders.rows,
  any_row-update_where (payable t i) (failable t i) (paid_row r at m) (λ o. ground arith)
      w.db.orders.rows,
)

failed_rows :
    (t i : ℕ) (w : World) → NoFailable t i (record w { db = (mark_order_failed t i w.db).1 })
unfolding mark_order_failed
failed_rows t i w =
    any_row-update_where (failable t i) (failable t i) (λ o. record o { status = failed })
      (λ o. ground arith) w.db.orders.rows

module _ (env : Env) (tenant : Tenant) (i : ℕ) where
  -- Where there is nothing to mark, a failure's webhook does nothing.
  failure_idle :
      (expired : Bool) (w : World)
      → NoFailable tenant.id i w
      → handle_payment_failure env tenant i expired w ≡ (tt, w)
  unfolding handle_payment_failure mark_order_failed on_some query ◌>>=◌ call pure
  failure_idle expired w h = elim (Option-cases (get_order tenant.id i w.db)) [
    | inl e ↦ rw e refl
    | inr (o, e) ↦ rw e (rw h (rw same refl))
  ]
    where
      same :
          update_where (failable tenant.id i) (λ o. record o { status = failed }) w.db.orders.rows
          ≡ w.db.orders.rows
      same =
          update_where-none (failable tenant.id i) (λ o. record o { status = failed })
            w.db.orders.rows h

  success_idle :
      (r m : Option String) (w : World)
      → NoPayable tenant.id i w
      → handle_payment_success env tenant.id i r m w ≡ (tt, w)
  unfolding handle_payment_success mark_order_paid on_some query ◌>>=◌ call pure
  success_idle r m w h = elim (Option-cases (get_order tenant.id i w.db)) [
    | inl e ↦ rw e refl
    | inr (o, e) ↦ rw e (rw h (rw same refl))
  ]
    where
      same :
          update_where (payable tenant.id i) (paid_row r env.clock.now m) w.db.orders.rows
          ≡ w.db.orders.rows
      same = update_where-none (payable tenant.id i) (paid_row r env.clock.now m) w.db.orders.rows h

  tell_customer-Keeps :
      (P : World → Type 0)
      → ((w w' : World) → w'.db ≡ w.db → P w → P w')
      → (o : Order) (key : String) (args : List (String × Arg))
      → Keeps P (tell_customer env o key args)
  unfolding tell_customer send_text send pure ◌>>=◌
  tell_customer-Keeps P by_db o key args = record { at = λ w p. by_db w _ refl p }

  receipt-Keeps :
      (P : World → Type 0)
      → ((w w' : World) → w'.db ≡ w.db → P w → P w')
      → (o : Order) (b : Bool)
      → Keeps P (if b then tell_customer env o "payment_received" [] else skip)
  unfolding pure
  receipt-Keeps P by_db o true = tell_customer-Keeps P by_db o "payment_received" []
  receipt-Keeps P by_db o false = record { at = λ w p. p }

  -- Whatever an order's status, after a payment's webhook it can be marked neither paid nor failed.
  success_settles :
      (r m : Option String) (w : World)
      → NoPayable tenant.id i (handle_payment_success env tenant.id i r m w).1
        × NoFailable tenant.id i (handle_payment_success env tenant.id i r m w).1
  unfolding handle_payment_success on_some query ◌>>=◌ call pure get_order
  success_settles r m w = elim (Option-cases (get_order tenant.id i w.db)) [
    | inl e ↦ rw e (
      any_row-narrow (is_order tenant.id i) (payable tenant.id i) (λ o h. ground arith)
          w.db.orders.rows e,
      any_row-narrow (is_order tenant.id i) (failable tenant.id i) (λ o h. ground arith)
          w.db.orders.rows e,
    )
    | inr (o, e) ↦ rw e (
        (receipt-Keeps (Settled tenant.id i) (by_db tenant.id i) o
            (mark_order_paid tenant.id i r env.clock.now m w.db).0).at
          (record w { db = (mark_order_paid tenant.id i r env.clock.now m w.db).1 })
          (paid_rows tenant.id i r m env.clock.now w))
  ]

  link-Keeps :
      (o : Order) (url id : String)
      → Keeps
          (NoFailable tenant.id i)
          (execute (update_order_payment_link tenant.id o.id url (some id)))
  unfolding call update_order_payment_link
  link-Keeps o url id = record {
    at = λ w h.
        any_row-update_where_keep (is_order tenant.id o.id) (failable tenant.id i) _ (λ o. refl)
          w.db.orders.rows
        ∙ h;
  }

  tells :
      (o : Order) (key : String) (args : List (String × Arg))
      → Keeps (NoFailable tenant.id i) (tell_customer env o key args)
  tells = tell_customer-Keeps (NoFailable tenant.id i) (λ w w' e h. rw e h)

  retry-Keeps :
      (o : Order) (r : LinkResult) → Keeps (NoFailable tenant.id i) (offer_retry env tenant o r)
  unfolding offer_retry
  retry-Keeps o not_configured = tells o _ _
  retry-Keeps o api_error = tells o _ _
  retry-Keeps o (link url id) = Keeps-bind _ _ (link-Keeps o url id) (λ u. tells o _ _)

  notice-Keeps :
      (expired : Bool) (o : Order)
      → Keeps (NoFailable tenant.id i) (failure_notice env tenant expired o)
  unfolding failure_notice
  notice-Keeps true o = retry-Keeps o (create_payment_link env tenant o)
  notice-Keeps false o = search (keeps_rules, tells o) depth 8

  noticed :
      (expired : Bool) (o : Order) (b : Bool)
      → Keeps (NoFailable tenant.id i) (if b then failure_notice env tenant expired o else skip)
  unfolding pure
  noticed expired o true = notice-Keeps expired o
  noticed expired o false = record { at = λ w p. p }

  failure_settles :
      (expired : Bool) (w : World)
      → NoFailable tenant.id i (handle_payment_failure env tenant i expired w).1
  unfolding handle_payment_failure on_some query ◌>>=◌ call pure get_order
  failure_settles expired w = elim (Option-cases (get_order tenant.id i w.db)) [
    | inl e ↦ rw e (
        any_row-narrow (is_order tenant.id i) (failable tenant.id i) (λ o h. ground arith)
          w.db.orders.rows e)
    | inr (o, e) ↦ rw e (
        (noticed expired o (mark_order_failed tenant.id i w.db).0).at
          (record w { db = (mark_order_failed tenant.id i w.db).1 }) (failed_rows tenant.id i w))
  ]

-- Payment webhooks may be delivered again or overtake each other. After a payment's webhook, a
-- second one, whatever it carries, and a failure's one that comes late change nothing and post
-- nothing; so does a second failure's webhook after a first, also where the first made a new link,
-- and whatever each says of the link's expiry.
pub redelivery_idle :
    (env env' : Env) (tenant : Tenant) (i : ℕ) (r r' m m' : Option String) (e e' : Bool) (w : World)
    → (handle_payment_success env' tenant.id i r' m'
          (handle_payment_success env tenant.id i r m w).1
        ≡ (tt, (handle_payment_success env tenant.id i r m w).1))
      × (handle_payment_failure env' tenant i e' (handle_payment_success env tenant.id i r m w).1
          ≡ (tt, (handle_payment_success env tenant.id i r m w).1))
      × (handle_payment_failure env' tenant i e' (handle_payment_failure env tenant i e w).1
          ≡ (tt, (handle_payment_failure env tenant i e w).1))
redelivery_idle env env' tenant i r r' m m' e e' w =
    let (no_payable, no_failable) = success_settles env tenant i r m w in
    (
      success_idle env' tenant i r' m' (handle_payment_success env tenant.id i r m w).1 no_payable,
      failure_idle env' tenant i e' (handle_payment_success env tenant.id i r m w).1 no_failable,
      failure_idle env' tenant i e' (handle_payment_failure env tenant i e w).1
          (failure_settles env tenant i e w),
    )
