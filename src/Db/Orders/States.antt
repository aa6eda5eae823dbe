-- ===== src/Db/Orders/States.antt =====
-- How the conditional updates move an order between its states.
use whatsapp_commerce_bot.Base.{
  false, ℕ, ◌≡◌, refl, ◌∙◌, ◌⊎◌, ◌||◌, is_some, inl, inr, All, [], ◌∷◌, String, Bool, true, Option,
  none, some, List, arith, if◌then◌else◌, coalesce,
}
use whatsapp_commerce_bot.Base.Table.{update_table, update_where-All, select_one-update_where}
use whatsapp_commerce_bot.Db.{status_eq, Status, Database, Order, paid, failed, fulfilled}
use whatsapp_commerce_bot.Db.Orders.{
  is_order, get_order, payable, paid_row, mark_order_paid, failable, mark_order_failed, fulfillable,
  mark_order_fulfilled, unnudged, mark_nudge_sent, update_order_payment_link,
}

-- One of the calls that change an order after its checkout.
pub data Event : Type 0 where
  pays : ℕ → ℕ → Option String → ℕ → Option String → Event
  fails : ℕ → ℕ → Event
  fulfils : ℕ → ℕ → Event
  nudges : ℕ → ℕ → ℕ → Event
  links : ℕ → ℕ → String → Option String → Event

unfoldable pub step : Event → Database → Database
step (pays t i reference at method) d = (mark_order_paid t i reference at method d).1
step (fails t i) d = (mark_order_failed t i d).1
step (fulfils t i) d = (mark_order_fulfilled t i d).1
step (nudges t i now) d = (mark_nudge_sent t i now d).1
step (links t i url reference) d = update_order_payment_link t i url reference d

pub run : List Event → Database → Database
run [] d = d
run (e ∷ es) d = run es (step e d)

-- The WHERE clause of an event, and what it writes.
abbrev pub chosen : Event → Order → Bool
chosen (pays t i reference at method) = payable t i
chosen (fails t i) = failable t i
chosen (fulfils t i) = fulfillable t i
chosen (nudges t i now) = unnudged t i
chosen (links t i url reference) = is_order t i

abbrev pub written : Event → Order → Order
written (pays t i reference at method) o = paid_row reference at method o
written (fails t i) o = record o { status = failed }
written (fulfils t i) o = record o { status = fulfilled }
written (nudges t i now) o = record o { nudge_sent_at = some now }
written (links t i url reference) o = record o {
  payment_link_url = some url;
  payment_gateway_reference = coalesce reference o.payment_gateway_reference;
}

step-update :
    (e : Event) (d : Database)
    → step e d ≡ record d { orders = update_table (chosen e) (written e) d.orders }
unfolding step mark_order_paid mark_order_failed mark_order_fulfilled mark_nudge_sent
    update_order_payment_link
step-update (pays t i reference at method) d = refl
step-update (fails t i) d = refl
step-update (fulfils t i) d = refl
step-update (nudges t i now) d = refl
step-update (links t i url reference) d = refl

abbrev pub changed : Event → Order → Order
changed e o = if chosen e o then written e o else o

written_key : (e : Event) (t i : ℕ) (o : Order) → is_order t i (written e o) ≡ is_order t i o
written_key (pays u j reference at method) t i o = refl
written_key (fails u j) t i o = refl
written_key (fulfils u j) t i o = refl
written_key (nudges u j now) t i o = refl
written_key (links u j url reference) t i o = refl

-- What a key finds after an event is the row that it found, changed if the event chose it.
pub get_order-step :
    (e : Event) (t i : ℕ) (d : Database) (o : Order)
    → get_order t i d ≡ some o
    → get_order t i (step e d) ≡ some (changed e o)
unfolding get_order
get_order-step e t i d o found = rw (step-update e d) (
    rw
      (select_one-update_where (chosen e) (is_order t i) (written e) (written_key e t i)
        d.orders.rows)
      (rw found))

-- An order that has been paid for knows when.
abbrev pub is_paid_for : Status → Bool
is_paid_for s = status_eq s paid || status_eq s fulfilled

abbrev pub IsSettled : Order → Type 0
IsSettled o = (is_paid_for o.status ≡ false) ⊎ (is_some o.paid_at ≡ true)

written-IsSettled :
    (e : Event) (o : Order) → chosen e o ≡ true → IsSettled o → IsSettled (written e o)
written-IsSettled (pays t i reference at method) o c h = inr refl
written-IsSettled (fails t i) o c h = inl refl
written-IsSettled (fulfils t i) o c (inl unpaid) = absurd (paid_first unpaid)
  where
    paid_first : is_paid_for o.status ≡ false → ⊥
    paid_first unpaid = ground arith
written-IsSettled (fulfils t i) o c (inr known) = inr known
written-IsSettled (nudges t i now) o c h = h
written-IsSettled (links t i url reference) o c h = h

step-IsSettled :
    (e : Event) (d : Database) → All IsSettled d.orders.rows → All IsSettled (step e d).orders.rows
step-IsSettled e d h =
    rw (step-update e d)
      (update_where-All IsSettled (chosen e) (written e) (written-IsSettled e) d.orders.rows h)

-- Whatever payment events, merchant clicks and nudges arrive, in whatever order, every order that is
-- paid or fulfilled has the time of its payment, if that held at the start.
pub run-IsSettled :
    (es : List Event) (d : Database)
    → All IsSettled d.orders.rows
    → All IsSettled (run es d).orders.rows
unfolding run
run-IsSettled [] d h = h
run-IsSettled (e ∷ es) d h = run-IsSettled es (step e d) (step-IsSettled e d h)

-- What was agreed at checkout, and that a payment once recorded stays recorded.
pub record Agrees (o o' : Order) : Type 0 where
  pub id : o'.id ≡ o.id
  pub tenant : o'.tenant_id ≡ o.tenant_id
  pub customer : o'.customer_phone ≡ o.customer_phone
  pub subtotal : o'.subtotal ≡ o.subtotal
  pub total : o'.total ≡ o.total
  pub discount : o'.discount_amount ≡ o.discount_amount
  pub coupon : o'.coupon_code ≡ o.coupon_code
  pub language : o'.language ≡ o.language
  pub placed : o'.created_at ≡ o.created_at
  pub recorded : (o.paid_at ≡ none) ⊎ (is_some o'.paid_at ≡ true)

recorded_refl : (a : Option ℕ) → (a ≡ none) ⊎ (is_some a ≡ true)
recorded_refl none = inl refl
recorded_refl (some n) = inr refl

recorded_trans :
    (a b c : Option ℕ)
    → (a ≡ none) ⊎ (is_some b ≡ true)
    → (b ≡ none) ⊎ (is_some c ≡ true)
    → (a ≡ none) ⊎ (is_some c ≡ true)
recorded_trans a b c (inl x) k = inl x
recorded_trans a b c (inr x) (inl y) = cc
recorded_trans a b c (inr x) (inr y) = inr y

changed-Agrees : (e : Event) (o : Order) → Agrees o (changed e o)
changed-Agrees (pays t i reference at method) o = ground (arith, recorded_refl o.paid_at)
changed-Agrees (fails t i) o = ground (arith, recorded_refl o.paid_at)
changed-Agrees (fulfils t i) o = ground (arith, recorded_refl o.paid_at)
changed-Agrees (nudges t i now) o = ground (arith, recorded_refl o.paid_at)
changed-Agrees (links t i url reference) o = ground (arith, recorded_refl o.paid_at)

Agrees-refl : (o : Order) → Agrees o o
Agrees-refl o = record {
  id = refl;
  tenant = refl;
  customer = refl;
  subtotal = refl;
  total = refl;
  discount = refl;
  coupon = refl;
  language = refl;
  placed = refl;
  recorded = recorded_refl o.paid_at;
}

Agrees-trans : (o p q : Order) → Agrees o p → Agrees p q → Agrees o q
Agrees-trans o p q a b = record {
  id = b.id ∙ a.id;
  tenant = b.tenant ∙ a.tenant;
  customer = b.customer ∙ a.customer;
  subtotal = b.subtotal ∙ a.subtotal;
  total = b.total ∙ a.total;
  discount = b.discount ∙ a.discount;
  coupon = b.coupon ∙ a.coupon;
  language = b.language ∙ a.language;
  placed = b.placed ∙ a.placed;
  recorded = recorded_trans o.paid_at p.paid_at q.paid_at a.recorded b.recorded;
}

-- No sequence of events loses an order that is there, or changes its tenant, its customer, its amounts, its coupon
-- or its language, or forgets a recorded time of payment.
pub run-Agrees :
    (es : List Event) (t i : ℕ) (d : Database) (o : Order)
    → get_order t i d ≡ some o
    → (o' : Order) × (get_order t i (run es d) ≡ some o') × Agrees o o'
unfolding run
run-Agrees [] t i d o found = (o, found, Agrees-refl o)
run-Agrees (e ∷ es) t i d o found =
    let (o', found', a) =
      run-Agrees es t i (step e d) (changed e o) (get_order-step e t i d o found) in
    (o', found', Agrees-trans o (changed e o) o' (changed-Agrees e o) a)
