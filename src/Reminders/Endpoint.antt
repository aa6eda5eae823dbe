-- ===== src/Reminders/Endpoint.antt =====
-- `trigger_abandoned_cart_nudges` of core/main.py: the nudge job of every active tenant.
use whatsapp_commerce_bot.Base.{ℕ, String, List, [], ◌∷◌, str_eq, total_of, if◌then◌else◌}
use whatsapp_commerce_bot.Db.{Tenant}
use whatsapp_commerce_bot.Db.Tenants.{get_active_tenants}
use whatsapp_commerce_bot.World.{Env, Action, pure, query, ◌>>=◌}
use whatsapp_commerce_bot.Reminders.{send_abandoned_cart_nudges}

-- A dictionary of counts by the tenants' names, in the order in which the names came.
abbrev pub Counts : Type 0
Counts = List (String × ℕ)

-- `sent_by_tenant[name] = sent`: a name that is there already loses its count.
unfoldable pub put_count : String → ℕ → Counts → Counts
put_count name sent [] = (name, sent) ∷ []
put_count name sent ((k, n) ∷ counts) =
    if str_eq k name then (k, sent) ∷ counts else (k, n) ∷ put_count name sent counts

pub data Answer : Type 0 where
  forbidden : Answer
  nudged : (sent : ℕ) → (by_tenant : Counts) → Answer

module _ (env : Env) where
  unfoldable pub nudge_tenants : List Tenant → Counts → Action Counts
  nudge_tenants [] counts = pure counts
  nudge_tenants (t ∷ tenants) counts = do
    sent ← send_abandoned_cart_nudges env t.id
    nudge_tenants tenants (put_count t.name sent counts)

  unfoldable pub nudge_everyone : Action Answer
  nudge_everyone = do
    tenants ← query get_active_tenants
    counts ← nudge_tenants tenants []
    pure (nudged (total_of (λ (c : String × ℕ). c.1) counts) counts)

  unfoldable pub trigger_abandoned_cart_nudges : (internal_secret secret : String) → Action Answer
  trigger_abandoned_cart_nudges internal_secret secret =
      if str_eq secret internal_secret then nudge_everyone else pure forbidden
