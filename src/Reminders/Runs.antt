-- ===== src/Reminders/Runs.antt =====
-- Two runs of the job of reminders/scheduler.py.
use whatsapp_commerce_bot.Base.{
  select-none, All-mono, insert_asc, ℕ, ◌≡◌, refl, sym, ap, ◌∙◌, ◌⊎◌, inl, inr, subst, Bool, true,
  false, none, some, List, [], ◌∷◌, arith, All, select, order_by_asc, map, Bool-cases, Option-cases,
  if◌then◌else◌, ◌==◌, ◌||◌,
}
use whatsapp_commerce_bot.Base.Table.{update_where}
use whatsapp_commerce_bot.Db.{Database, Order, Tenant}
use whatsapp_commerce_bot.Db.Tenants.{get_tenant}
use whatsapp_commerce_bot.Db.Orders.{is_abandoned, get_abandoned_orders, unnudged, mark_nudge_sent}
use whatsapp_commerce_bot.World.{Env, World, pure, query, call, ◌>>=◌, skip, send}
use whatsapp_commerce_bot.World.Keeps.{on_some-found, on_some-missing}
use whatsapp_commerce_bot.Flow.Prompts.{send_text}
use whatsapp_commerce_bot.Flow.Pages.{is_in}
use whatsapp_commerce_bot.Reminders.{nudge_message, nudge_all, send_abandoned_cart_nudges}

abbrev id_of : Order → ℕ
id_of o = o.id

module _ (env : Env) (t hours : ℕ) where
  abbrev pub due : Order → Bool
  due = is_abandoned t hours env.clock.now

  -- An order that is due is still to be visited.
  abbrev IsCovered : List Order → Order → Type 0
  IsCovered orders r = (due r ≡ false) ⊎ (is_in r.id (map id_of orders) ≡ true)

  is_in-insert :
      (k : ℕ) (o : Order) (os : List Order)
      → is_in k (map id_of (insert_asc (λ x. x.created_at) o os))
        ≡ ((k == o.id) || is_in k (map id_of os))
  unfolding is_in
  is_in-insert k o [] = refl
  is_in-insert k o (x ∷ os) = ground (arith, is_in-insert k o os)

  is_in-sort :
      (k : ℕ) (os : List Order)
      → is_in k (map id_of (order_by_asc (λ x. x.created_at) os)) ≡ is_in k (map id_of os)
  unfolding is_in
  is_in-sort k [] = refl
  is_in-sort k (o ∷ os) =
      ground (arith, is_in-insert k o (order_by_asc (λ x. x.created_at) os), is_in-sort k os)

  widen : (o : Order) (os : List Order) (r : Order) → IsCovered os r → IsCovered (o ∷ os) r
  unfolding is_in
  widen o os r (inl no_longer) = inl no_longer
  widen o os r (inr here) = inr (ground (arith, here))

  widen-All :
      (o : Order) (os rows : List Order) → All (IsCovered os) rows → All (IsCovered (o ∷ os)) rows
  widen-All o os [] h = tt
  widen-All o os (r ∷ rows) (h, hs) = (widen o os r h, widen-All o os rows hs)

  select-covers : (rows : List Order) → All (IsCovered (select due rows)) rows
  unfolding is_in
  select-covers [] = tt
  select-covers (r ∷ rows) = elim (Bool-cases (due r)) [
    | inl is_due ↦
        kept (r ∷ select due rows)
          (ap (λ b. if b then r ∷ select due rows else select due rows) is_due) (inr (ground arith))
          (widen-All r (select due rows) rows (select-covers rows))
    | inr not_due ↦
        kept (select due rows)
          (ap (λ b. if b then r ∷ select due rows else select due rows) not_due) (inl not_due)
          (select-covers rows)
  ]
    where
      kept :
          (l : List Order)
          → select due (r ∷ rows) ≡ l
          → IsCovered l r
          → All (IsCovered l) rows
          → All (IsCovered (select due (r ∷ rows))) (r ∷ rows)
      kept l e h hs = subst (λ k. All (IsCovered k) (r ∷ rows)) (sym e) (h, hs)

  abbrev nudged : Order → Order
  nudged r = record r { nudge_sent_at = some env.clock.now }

  visit :
      (o : Order) (os : List Order) (r : Order)
      → IsCovered (o ∷ os) r
      → IsCovered os (if unnudged t o.id r then nudged r else r)
  unfolding is_in
  visit o os r h = elim (Bool-cases (due (if unnudged t o.id r then nudged r else r))) [
    | inr not_due ↦ inl not_due
    | inl is_due ↦ inr (left h is_due)
  ]
    where
      left :
          IsCovered (o ∷ os) r
          → due (if unnudged t o.id r then nudged r else r) ≡ true
          → is_in (if unnudged t o.id r then nudged r else r).id (map id_of os) ≡ true
      left (inl not_due) is_due = ground (arith, not_due, is_due)
      left (inr here) is_due = ground (arith, here, is_due)

  visit-All :
      (o : Order) (os rows : List Order)
      → All (IsCovered (o ∷ os)) rows
      → All (IsCovered os) (update_where (unnudged t o.id) nudged rows)
  unfolding update_where
  visit-All o os [] h = tt
  visit-All o os (r ∷ rows) (h, hs) = (visit o os r h, visit-All o os rows hs)

  -- Sorting the orders does not matter.
  sorted_covers :
      (rows : List Order)
      → All (IsCovered (order_by_asc (λ x. x.created_at) (select due rows))) rows
  sorted_covers rows =
      All-mono (IsCovered (select due rows))
        (IsCovered (order_by_asc (λ x. x.created_at) (select due rows))) sorted rows
        (select-covers rows)
    where
      sorted :
          (r : Order)
          → IsCovered (select due rows) r
          → IsCovered (order_by_asc (λ x. x.created_at) (select due rows)) r
      sorted r (inl not_due) = inl not_due
      sorted r (inr here) = inr (is_in-sort r.id (select due rows) ∙ here)

  none_left : (rows : List Order) → All (IsCovered []) rows → All (λ r. due r ≡ false) rows
  unfolding is_in
  none_left rows h = All-mono (IsCovered []) (λ r. due r ≡ false) visited rows h
    where
      visited : (r : Order) → IsCovered [] r → due r ≡ false
      visited r (inl not_due) = not_due
      visited r (inr here) = cc

  -- The orders and the tenants, which sending leaves alone.
  nudge-db :
      (o : Order) (b : Bool) (w : World)
      → ((if b then send_text env o.customer_phone (nudge_message o ∷ []) else skip) w).1.db ≡ w.db
  unfolding send_text send pure ◌>>=◌
  nudge-db o true w = refl
  nudge-db o false w = refl

  abbrev IsAfter : Database → World → Type 0
  IsAfter d w = (d.tenants ≡ w.db.tenants) × All (λ r. due r ≡ false) d.orders.rows

  pub nudge_all-IsAfter :
      (os : List Order) (w : World)
      → All (IsCovered os) w.db.orders.rows
      → IsAfter (nudge_all env t os w).1.db w
  unfolding nudge_all ◌>>=◌ call pure mark_nudge_sent
  nudge_all-IsAfter [] w h = (refl, none_left w.db.orders.rows h)
  nudge_all-IsAfter (o ∷ os) w h =
      let (claimed, d) = mark_nudge_sent t o.id env.clock.now w.db in
      let marked : World = record w { db = d } in
      let said =
        ((if claimed then send_text env o.customer_phone (nudge_message o ∷ []) else skip)
          marked).1 in
      let same = nudge-db o claimed marked in
      let (tenants, rest) = nudge_all-IsAfter os said (
        subst (λ e. All (IsCovered os) e.orders.rows) (sym same)
          (visit-All o os w.db.orders.rows h)) in
      (tenants ∙ ap (λ e. e.tenants) same, rest)

  pub found_covers :
      (d : Database) → All (IsCovered (get_abandoned_orders t hours env.clock.now d)) d.orders.rows
  unfolding get_abandoned_orders
  found_covers d = sorted_covers d.orders.rows

  pub again_idle :
      (w : World)
      → All (λ r. due r ≡ false) w.db.orders.rows
      → nudge_all env t (get_abandoned_orders t hours env.clock.now w.db) w ≡ (0, w)
  unfolding nudge_all get_abandoned_orders pure
  again_idle w h = rw (select-none due w.db.orders.rows h) refl

abbrev pub run : Env → ℕ → World → ℕ × World
run env t w = send_abandoned_cart_nudges env t w

module _ (env : Env) (t : ℕ) (w : World) where
  pub run_missing : get_tenant t w.db ≡ none → run env t w ≡ (0, w)
  unfolding send_abandoned_cart_nudges ◌>>=◌ query pure
  run_missing e = on_some-missing (get_tenant t w.db) _ _ w e

  pub run_found :
      (tenant : Tenant)
      → get_tenant t w.db ≡ some tenant
      → run env t w
        ≡ nudge_all env t
            (get_abandoned_orders t tenant.abandoned_cart_nudge_hours env.clock.now w.db)
            w
  unfolding send_abandoned_cart_nudges ◌>>=◌ query
  run_found tenant e = on_some-found (get_tenant t w.db) _ _ tenant w e

pub same_tenant :
    (t : ℕ) (d d' : Database) → d.tenants ≡ d'.tenants → get_tenant t d ≡ get_tenant t d'
unfolding get_tenant
same_tenant t d d' e = rw e refl

-- A run of the job leaves nothing to nudge: a second run at the same time, for whatever orders and
-- tenant, sends nothing and changes nothing.
send_abandoned_cart_nudges-again :
    (env : Env) (t : ℕ) (w : World)
    → send_abandoned_cart_nudges env t (send_abandoned_cart_nudges env t w).1
      ≡ (0, (send_abandoned_cart_nudges env t w).1)
send_abandoned_cart_nudges-again env t w = elim (Option-cases (get_tenant t w.db)) [
  | inl e ↦
      subst (λ (r : ℕ × World). run env t r.1 ≡ (0, r.1)) (sym (run_missing env t w e))
        (run_missing env t w e)
  | inr (tenant, e) ↦
      subst (λ (r : ℕ × World). run env t r.1 ≡ (0, r.1)) (sym (run_found env t w tenant e))
        (second tenant e)
]
  where
    second :
        (tenant : Tenant)
        → get_tenant t w.db ≡ some tenant
        → let r =
            nudge_all env t
              (get_abandoned_orders t tenant.abandoned_cart_nudge_hours env.clock.now w.db)
              w in
          run env t r.1 ≡ (0, r.1)
    second tenant e =
        let hours = tenant.abandoned_cart_nudge_hours in
        let first = (nudge_all env t (get_abandoned_orders t hours env.clock.now w.db) w).1 in
        let (tenants, all_done) =
          nudge_all-IsAfter env t hours (get_abandoned_orders t hours env.clock.now w.db) w
            (found_covers env t hours w.db) in
        run_found env t first tenant (same_tenant t first.db w.db tenants ∙ e)
        ∙ again_idle env t hours first all_done
