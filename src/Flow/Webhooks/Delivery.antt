-- ===== src/Flow/Webhooks/Delivery.antt =====
-- What one delivery of a payment's webhook does, in `handle_payment_success` of core/commerce_flow.py.
use whatsapp_commerce_bot.Base.{
  ◌&&◌, coalesce, ℕ, ◌≡◌, refl, ap, ◌∙◌, String, Bool, true, false, not, Option, none, some, [],
  ◌∷◌, arith, if◌then◌else◌,
}
use whatsapp_commerce_bot.Base.Table.{
  select_one-update_where, select_one_holds, Unique, any_row-found, update_where-none,
}
use whatsapp_commerce_bot.Db.{Database, Order, paid, status_eq}
use whatsapp_commerce_bot.Db.Orders.{is_order, get_order, payable, paid_row, mark_order_paid}
use whatsapp_commerce_bot.Message.{Message, Sent, number, say}
use whatsapp_commerce_bot.World.{
  Env, World, call, query, on_some, skip, pure, ◌>>=◌, send, addressed,
}
use whatsapp_commerce_bot.Flow.Prompts.{send_text}
use whatsapp_commerce_bot.Flow.Webhooks.{tell_customer, handle_payment_success}

abbrev pub order_id_of : Order → ℕ
order_id_of o = o.id

-- The text that tells the customer of a payment.
abbrev pub receipt : Order → Message
receipt o = Message.text (say "payment_received" o.language (("id", number o.id) ∷ []) ∷ [])

if-not : (b : Bool) (x y : Order) → (if true && not b then x else y) ≡ (if b then y else x)
if-not true x y = refl
if-not false x y = refl

module _ (env : Env) (t i : ℕ) (reference method : Option String) (w : World) where
  abbrev after_payment : World
  after_payment = (handle_payment_success env t i reference method w).1

  abbrev pub marked : Bool × Database
  marked = mark_order_paid t i reference env.clock.now method w.db

  payment_unknown :
      get_order t i w.db ≡ none → handle_payment_success env t i reference method w ≡ (tt, w)
  unfolding handle_payment_success on_some query ◌>>=◌ pure
  payment_unknown e = rw e refl

  receipt_if :
      (o : Order) (b : Bool) (d : Database)
      → (if b then tell_customer env o "payment_received" [] else skip) (record w { db = d }) ≡ (
        tt,
        if b
            then record w { db = d; sent = addressed env o.customer_phone (receipt o) ∷ w.sent }
            else record w { db = d },
      )
  unfolding tell_customer send_text send pure ◌>>=◌
  receipt_if o true d = refl
  receipt_if o false d = refl

  payment_found :
      (o : Order)
      → get_order t i w.db ≡ some o
      → handle_payment_success env t i reference method w ≡ (
        tt,
        if marked.0
            then record w {
              db = marked.1;
              sent = addressed env o.customer_phone (receipt o) ∷ w.sent;
            }
            else record w { db = marked.1 },
      )
  unfolding handle_payment_success on_some query ◌>>=◌ call
  payment_found o e = rw e (receipt_if o marked.0 marked.1)

  payment_db : (o : Order) → get_order t i w.db ≡ some o → after_payment.db ≡ marked.1
  payment_db o e = ap (λ (r : Unit {0} × World). r.1.db) (payment_found o e) ∙ either marked.0
    where
      either :
          (b : Bool)
          → (if b
              then record w {
                db = marked.1;
                sent = addressed env o.customer_phone (receipt o) ∷ w.sent;
              }
              else record w { db = marked.1 }).db
            ≡ marked.1
      either true = refl
      either false = refl

  marked-found :
      Unique order_id_of w.db.orders.rows
      → (o : Order) → get_order t i w.db ≡ some o
      → marked.0 ≡ not (status_eq o.status paid)
  unfolding mark_order_paid get_order
  marked-found u o e =
      any_row-found order_id_of (is_order t i) (λ r. not (status_eq r.status paid)) i
        (λ r own. ground arith) w.db.orders.rows u o e

  marked-same : marked.0 ≡ false → marked.1 ≡ w.db
  unfolding mark_order_paid
  marked-same none_left =
      ap (λ rows. record w.db { orders = record w.db.orders { rows = rows } })
        (update_where-none (payable t i) (paid_row reference env.clock.now method) w.db.orders.rows
          none_left)

  abbrev pub receipt_to : Order → Sent
  receipt_to o = addressed env o.customer_phone (receipt o)

  settle :
      (b m : Bool) (d : Database) (r : Sent)
      → m ≡ not b
      → (m ≡ false → d ≡ w.db)
      → (if m then record w { db = d; sent = r ∷ w.sent } else record w { db = d })
        ≡ (if b then w else record w { db = d; sent = r ∷ w.sent })
  settle true m d r e same = rw e (ap (λ x. record w { db = x }) (same e))
  settle false m d r e same = rw e refl

  marked-row :
      (o : Order)
      → get_order t i w.db ≡ some o
      → get_order t i marked.1
        ≡ some (
            if status_eq o.status paid then o else record o {
              status = paid;
              payment_gateway_reference = coalesce reference o.payment_gateway_reference;
              payment_method = coalesce method o.payment_method;
              paid_at = some env.clock.now;
            })
  unfolding mark_order_paid get_order
  marked-row o e =
      let own = select_one_holds (is_order t i) w.db.orders.rows e in
      select_one-update_where (payable t i) (is_order t i) (paid_row reference env.clock.now method)
        (λ r. refl) w.db.orders.rows
      ∙ rw e (rw own (ap (λ r. some r) (if-not (status_eq o.status paid) _ o)))

  -- A payment's webhook confirms an order once. For an order that is not yet paid, whatever else its
  -- status, the order afterwards is paid, with the reference and the method of the payment where it
  -- names them and the time of the webhook, and with all else as it was, and one receipt is posted to
  -- the order's customer in the order's language; for a paid order nothing changes and nothing is
  -- posted. Order ids differ.
  pub handle_payment_success-confirms :
      Unique order_id_of w.db.orders.rows
      → (o : Order) → get_order t i w.db ≡ some o
      → (handle_payment_success env t i reference method w ≡ (
        tt,
        if status_eq o.status paid then w else record w {
          db = marked.1;
          sent = addressed env o.customer_phone (receipt o) ∷ w.sent;
        },
      ))
        × (get_order t i after_payment.db
            ≡ some (
                if status_eq o.status paid then o else record o {
                  status = paid;
                  payment_gateway_reference = coalesce reference o.payment_gateway_reference;
                  payment_method = coalesce method o.payment_method;
                  paid_at = some env.clock.now;
                }))
  handle_payment_success-confirms u o e =
      let at_world : World → Unit {0} × World = λ v. (tt, v) in
      let settled =
        payment_found o e
        ∙ ap at_world (
            settle (status_eq o.status paid) marked.0 marked.1 (receipt_to o) (marked-found u o e)
              marked-same) in
      (settled, rw (payment_db o e) (marked-row o e))
