-- ===== src/Reminders/Again.antt =====
-- Two calls of the nudge endpoint of core/main.py.
use whatsapp_commerce_bot.Base.{
  ℕ, ◌≡◌, refl, sym, ◌∙◌, ◌⊎◌, inl, inr, subst, String, Bool, true, false, none, some, List, [],
  ◌∷◌, arith, All, str_eq, total_of, Option-cases, if◌then◌else◌,
}
use whatsapp_commerce_bot.Base.Table.{Table, update_where-All}
use whatsapp_commerce_bot.Db.{Order, Tenant}
use whatsapp_commerce_bot.Db.Tenants.{get_tenant, get_active_tenants}
use whatsapp_commerce_bot.Db.Orders.{unnudged, get_abandoned_orders, mark_nudge_sent}
use whatsapp_commerce_bot.Message.{Part}
use whatsapp_commerce_bot.World.{Env, World, call, pure, query, send, ◌>>=◌}
use whatsapp_commerce_bot.World.Keeps.{Keeps, keeps_rules, Keeps-bind}
use whatsapp_commerce_bot.Flow.Prompts.{send_text}
use whatsapp_commerce_bot.Reminders.{nudge_all, send_abandoned_cart_nudges}
use whatsapp_commerce_bot.Reminders.Runs.{
  due, run, nudge_all-IsAfter, found_covers, again_idle, run_missing, run_found, same_tenant,
}
use whatsapp_commerce_bot.Reminders.Endpoint.{
  Counts, forbidden, nudged, put_count, nudge_tenants, nudge_everyone,
  trigger_abandoned_cart_nudges,
}

module _ (env : Env) where
  -- What marking and sending keep, the job of any tenant keeps, and so does the job of all.
  module _ {P : World → Type 0}
      (marks : (u o : ℕ) → Keeps P (call (mark_nudge_sent u o env.clock.now)))
      (says : (to : String) (ps : List Part) → Keeps P (send_text env to ps)) where
    nudge_all-Keeps : (u : ℕ) (os : List Order) → Keeps P (nudge_all env u os)
    unfolding nudge_all
    nudge_all-Keeps u [] = search keeps_rules
    nudge_all-Keeps u (o ∷ os) = Keeps-bind _ _ (marks u o.id) λ claimed.
        Keeps-bind _ _ (search (keeps_rules, says))
          λ _. Keeps-bind _ _ (nudge_all-Keeps u os) λ sent. search keeps_rules

    run-Keeps : (u : ℕ) → Keeps P (send_abandoned_cart_nudges env u)
    unfolding send_abandoned_cart_nudges
    run-Keeps u = search (keeps_rules, nudge_all-Keeps) depth 10

    nudge_tenants-Keeps :
        (ts : List Tenant) (counts : Counts) → Keeps P (nudge_tenants env ts counts)
    unfolding nudge_tenants
    nudge_tenants-Keeps [] counts = search keeps_rules
    nudge_tenants-Keeps (t ∷ ts) counts =
        Keeps-bind _ _ (run-Keeps t.id)
          λ sent. nudge_tenants-Keeps ts (put_count t.name sent counts)

  module _ (tenants : Table Tenant) (t : ℕ) where
    -- The tenants are these, and this one is not there or has no order to nudge.
    data Done (w : World) : Type 0 where
      gone : w.db.tenants ≡ tenants → get_tenant t w.db ≡ none → Done w
      quiet :
          (tenant : Tenant)
          → w.db.tenants ≡ tenants
          → get_tenant t w.db ≡ some tenant
          → All (λ r. due env t tenant.abandoned_cart_nudge_hours r ≡ false) w.db.orders.rows
          → Done w

    Done-tenants : (w : World) → Done w → w.db.tenants ≡ tenants
    Done-tenants w (gone e n) = e
    Done-tenants w (quiet tenant e f all) = e

    mark-Done : (u o : ℕ) → Keeps Done (call (mark_nudge_sent u o env.clock.now))
    unfolding call mark_nudge_sent get_tenant
    mark-Done u o = record { at = marked }
      where
        marked : (w : World) → Done w → Done (call (mark_nudge_sent u o env.clock.now) w).1
        marked w (gone e n) = gone e n
        marked w (quiet tenant e f all) = quiet tenant e f (
            update_where-All (λ r. due env t tenant.abandoned_cart_nudge_hours r ≡ false)
              (unnudged u o) _ (λ r _ not_due. ground arith) w.db.orders.rows all)

    say-Done : (to : String) (ps : List Part) → Keeps Done (send_text env to ps)
    unfolding send_text send ◌>>=◌ pure get_tenant
    say-Done to ps = record { at = said }
      where
        said : (w : World) → Done w → Done (send_text env to ps w).1
        said w (gone e n) = gone e n
        said w (quiet tenant e f all) = quiet tenant e f all

    -- The job leaves its tenant done, and does nothing where it is.
    run-Done : (w : World) → w.db.tenants ≡ tenants → Done (run env t w).1
    run-Done w e = elim (Option-cases (get_tenant t w.db)) [
      | inl n ↦ subst (λ (r : ℕ × World). Done r.1) (sym (run_missing env t w n)) (gone e n)
      | inr (tenant, f) ↦
          let hours = tenant.abandoned_cart_nudge_hours in
          let os = get_abandoned_orders t hours env.clock.now w.db in
          let (same, all) = nudge_all-IsAfter env t hours os w (found_covers env t hours w.db) in
          subst (λ (r : ℕ × World). Done r.1) (sym (run_found env t w tenant f))
            (quiet tenant (same ∙ e) (same_tenant t (nudge_all env t os w).1.db w.db same ∙ f) all)
    ]

    run-idle : (w : World) → Done w → run env t w ≡ (0, w)
    run-idle w (gone e n) = run_missing env t w n
    run-idle w (quiet tenant e f all) =
        run_found env t w tenant f ∙ again_idle env t tenant.abandoned_cart_nudge_hours w all

  abbrev AllDone : Table Tenant → List Tenant → World → Type 0
  AllDone tenants ts w = All (λ (t : Tenant). Done tenants t.id w) ts

  module _ (tenants : Table Tenant) where
    tenants_kept :
        (ts : List Tenant) (counts : Counts) (w : World)
        → w.db.tenants ≡ tenants
        → (nudge_tenants env ts counts w).1.db.tenants ≡ tenants
    unfolding nudge_tenants ◌>>=◌ pure
    tenants_kept [] counts w e = e
    tenants_kept (t ∷ ts) counts w e =
        let (sent, w') = run env t.id w in
        tenants_kept ts (put_count t.name sent counts) w'
          (Done-tenants tenants t.id w' (run-Done tenants t.id w e))

    tenants-AllDone :
        (ts : List Tenant) (counts : Counts) (w : World)
        → w.db.tenants ≡ tenants
        → AllDone tenants ts (nudge_tenants env ts counts w).1
    unfolding nudge_tenants ◌>>=◌ pure
    tenants-AllDone [] counts w e = tt
    tenants-AllDone (t ∷ ts) counts w e =
        let (sent, w') = run env t.id w in
        let done = run-Done tenants t.id w e in
        (
          (nudge_tenants-Keeps (mark-Done tenants t.id) (say-Done tenants t.id) ts
                (put_count t.name sent counts)).at
              w' done,
          tenants-AllDone ts (put_count t.name sent counts) w' (Done-tenants tenants t.id w' done),
        )

    abbrev AllZero : Counts → Type 0
    AllZero counts = All (λ (c : String × ℕ). c.1 ≡ 0) counts

    put_zero :
        (name : String) (counts : Counts) → AllZero counts → AllZero (put_count name 0 counts)
    unfolding put_count
    put_zero name [] h = (refl, tt)
    put_zero name ((k, n) ∷ counts) (h, hs) = by_name (str_eq k name) (put_zero name counts hs)
      where
        by_name :
            (b : Bool)
            → AllZero (put_count name 0 counts)
            → AllZero (if b then (k, 0) ∷ counts else (k, n) ∷ put_count name 0 counts)
        by_name true r = (refl, hs)
        by_name false r = (h, r)

    total_zero : (counts : Counts) → AllZero counts → total_of (λ (c : String × ℕ). c.1) counts ≡ 0
    total_zero [] h = refl
    total_zero (c ∷ counts) (h, hs) = rw (h, total_zero counts hs) refl

    tenants_idle :
        (ts : List Tenant) (counts : Counts) (w : World)
        → AllDone tenants ts w
        → AllZero counts
        → (zeros : Counts) × (nudge_tenants env ts counts w ≡ (zeros, w)) × AllZero zeros
    unfolding nudge_tenants ◌>>=◌ pure
    tenants_idle [] counts w done h = (counts, refl, h)
    tenants_idle (t ∷ ts) counts w (done, rest) h =
        let (zeros, e, z) =
          tenants_idle ts (put_count t.name 0 counts) w rest (put_zero t.name counts h) in
        (zeros, rw (run-idle tenants t.id w done) e, z)

  abbrev Idle : World → Type 0
  Idle w = (zeros : Counts) × (nudge_everyone env w ≡ (nudged 0 zeros, w))

  everyone-Idle :
      (ts : List Tenant) (w : World)
      → get_active_tenants w.db ≡ ts
      → AllDone w.db.tenants ts w
      → Idle w
  unfolding nudge_everyone ◌>>=◌ query pure
  everyone-Idle ts w active done =
      let (zeros, e, z) = tenants_idle w.db.tenants ts [] w done tt in
      (zeros, rw (active, e, total_zero w.db.tenants zeros z) refl)

  everyone-again : (w : World) → Idle (nudge_everyone env w).1
  unfolding nudge_everyone ◌>>=◌ query pure get_active_tenants
  everyone-again w =
      let ts = get_active_tenants w.db in
      let w' = (nudge_tenants env ts [] w).1 in
      let same = tenants_kept w.db.tenants ts [] w refl in
      everyone-Idle ts w' (rw same refl)
        (subst (λ x. AllDone x ts w') (sym same) (tenants-AllDone w.db.tenants ts [] w refl))

  -- A second call of the nudge endpoint at the same time, with whatever secret, is refused and changes
  -- nothing, where the first was, or it answers that 0 messages were sent, sends nothing to any
  -- customer of any tenant and changes nothing.
  pub trigger_abandoned_cart_nudges-again :
      (internal_secret secret : String) (w : World)
      → let w' = (trigger_abandoned_cart_nudges env internal_secret secret w).1 in
        let again = trigger_abandoned_cart_nudges env internal_secret secret w' in
        (again ≡ (forbidden, w')) ⊎ ((by_tenant : Counts) × (again ≡ (nudged 0 by_tenant, w')))
  unfolding trigger_abandoned_cart_nudges pure
  trigger_abandoned_cart_nudges-again internal_secret secret w = go (str_eq secret internal_secret)
    where
      go :
          (b : Bool)
          → let m = if b then nudge_everyone env else pure forbidden in
            let w' = (m w).1 in
            (m w' ≡ (forbidden, w')) ⊎ ((by_tenant : Counts) × (m w' ≡ (nudged 0 by_tenant, w')))
      go true = inr (everyone-again w)
      go false = inl refl
