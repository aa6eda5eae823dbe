-- ===== src/Db/Orders/Repeats.antt =====
-- Webhooks and clicks come twice, late and out of order: what the conditional updates let through.
use whatsapp_commerce_bot.Base.{
  subst, sym, Bool-cases, inl, inr, ℕ, ◌≡◌, ap, ap₂, ◌∙◌, String, Bool, true, false, Option, some,
  arith,
}
use whatsapp_commerce_bot.Base.Table.{
  update_where, update_table, any_row, any_row-update_where_self, update_where-none,
  select_one_holds,
}
use whatsapp_commerce_bot.Db.{status_eq, Status, Database, Order, paid, failed, fulfilled}
use whatsapp_commerce_bot.Db.Orders.{
  is_order, get_order, payable, paid_row, mark_order_paid, failable, mark_order_failed, fulfillable,
  mark_order_fulfilled, unnudged, mark_nudge_sent,
}
use whatsapp_commerce_bot.Db.Orders.States.{
  written, chosen, Event, pays, fails, fulfils, nudges, links, step, changed, get_order-step,
}

-- A conditional update as the repository makes it: whether a row was chosen, and the new table.
abbrev conditional : (Order → Bool) → (Order → Order) → Database → Bool × Database
conditional test f d =
    (any_row test d.orders.rows, record d { orders = update_table test f d.orders })

-- If what an update writes leaves its WHERE clause, a second run with any values finds nothing.
spent :
    (test : Order → Bool) (f g : Order → Order) (d : Database)
    → ((o : Order) → test o ≡ true → test (f o) ≡ false)
    → conditional test g (conditional test f d).1 ≡ (false, (conditional test f d).1)
spent test f g d leaves =
    ap₂
      (λ b rows.
        let r : Bool × Database = (b, record d { orders = record d.orders { rows = rows } }) in r)
      none_left (update_where-none test g (update_where test f d.orders.rows) none_left)
  where
    none_left : any_row test (update_where test f d.orders.rows) ≡ false
    none_left = any_row-update_where_self test f leaves d.orders.rows

-- A second delivery of a payment, whatever it carries, and a second failure, click or nudge of the
-- same order each report that they changed nothing, and change nothing.
mark_again :
    (t i at at' : ℕ) (r r' m m' : Option String) (d : Database)
    → (mark_order_paid t i r' at' m' (mark_order_paid t i r at m d).1
        ≡ (false, (mark_order_paid t i r at m d).1))
      × (mark_order_failed t i (mark_order_failed t i d).1 ≡ (false, (mark_order_failed t i d).1))
      × (mark_order_fulfilled t i (mark_order_fulfilled t i d).1
          ≡ (false, (mark_order_fulfilled t i d).1))
      × (mark_nudge_sent t i at' (mark_nudge_sent t i at d).1
          ≡ (false, (mark_nudge_sent t i at d).1))
unfolding mark_order_paid mark_order_failed mark_order_fulfilled mark_nudge_sent
mark_again t i at at' r r' m m' d = (
  spent (payable t i) (paid_row r at m) (paid_row r' at' m') d (λ o h. ground arith),
  spent (failable t i) (λ o. record o { status = failed }) (λ o. record o { status = failed }) d
      (λ o h. ground arith),
  spent (fulfillable t i) (λ o. record o { status = fulfilled })
      (λ o. record o { status = fulfilled }) d (λ o h. ground arith),
  spent (unnudged t i) (λ o. record o { nudge_sent_at = some at })
      (λ o. record o { nudge_sent_at = some at' }) d (λ o h. ground arith),
)

-- How one event can move an order's status.
pub data Move : Status → Status → Type 0 where
  stays : {s : Status} → Move s s
  is_paid : {s : Status} → status_eq s paid ≡ false → Move s paid
  has_failed : {s : Status} → status_eq s paid ≡ false → status_eq s failed ≡ false → Move s failed
  is_fulfilled : Move paid fulfilled

payable_status : (t i : ℕ) (o : Order) → payable t i o ≡ true → status_eq o.status paid ≡ false
payable_status t i o h = ground arith

failable_status :
    (t i : ℕ) (o : Order)
    → failable t i o ≡ true
    → (status_eq o.status paid ≡ false) × (status_eq o.status failed ≡ false)
failable_status t i o h = ground arith

fulfillable_status : (t i : ℕ) (o : Order) → fulfillable t i o ≡ true → o.status ≡ paid
fulfillable_status t i o h = ground arith

written-Move : (e : Event) (o : Order) → chosen e o ≡ true → Move o.status (written e o).status
written-Move (pays t i reference at method) o c = is_paid (payable_status t i o c)
written-Move (fails t i) o c =
    let (unpaid, unfailed) = failable_status t i o c in has_failed unpaid unfailed
written-Move (fulfils t i) o c =
    subst (λ s. Move s fulfilled) (sym (fulfillable_status t i o c)) is_fulfilled
written-Move (nudges t i now) o c = stays
written-Move (links t i url reference) o c = stays

changed-Move : (e : Event) (o : Order) → Move o.status (changed e o).status
changed-Move e o = elim (Bool-cases (chosen e o)) [
  | inl c ↦ rw c (written-Move e o c)
  | inr c ↦ rw c stays
]

-- An event leaves an order's status as it is, or makes an order paid that was not, or failed that was
-- neither paid nor failed, or fulfilled that was paid; so a paid order is taken nowhere but to
-- fulfilled, and nothing becomes pending again.
pub step-Move :
    (e : Event) (t i : ℕ) (d : Database) (o : Order)
    → get_order t i d ≡ some o
    → (o' : Order) × (get_order t i (step e d) ≡ some o') × Move o.status o'.status
step-Move e t i d o found = (changed e o, get_order-step e t i d o found, changed-Move e o)

own_key : (t i : ℕ) (d : Database) (o : Order) → get_order t i d ≡ some o → is_order t i o ≡ true
unfolding get_order
own_key t i d o found = select_one_holds (is_order t i) d.orders.rows found

-- A fulfilled order is not protected as a paid one is: a late failure webhook marks it failed, and a
-- repeated payment webhook marks it paid again.
pub fulfilled_taken_back :
    (t i at : ℕ) (r m : Option String) (d : Database) (o : Order)
    → get_order t i d ≡ some o
    → o.status ≡ fulfilled
    → (get_order t i (mark_order_failed t i d).1 ≡ some (record o { status = failed }))
      × (get_order t i (mark_order_paid t i r at m d).1 ≡ some (paid_row r at m o))
unfolding step
fulfilled_taken_back t i at r m d o found done =
    let key = own_key t i d o found in
    (
      get_order-step (fails t i) t i d o found ∙ ap some (ground arith),
      get_order-step (pays t i r at m) t i d o found ∙ ap some (ground arith),
    )
