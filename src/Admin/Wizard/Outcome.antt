-- ===== src/Admin/Wizard/Outcome.antt =====
-- What the wizard of admin/onboarding_wizard.py does with what an operator enters.
use whatsapp_commerce_bot.Base.{String, Option, List, [], ◌∷◌, length}
use whatsapp_commerce_bot.Base.Table.{IsBelow}
use whatsapp_commerce_bot.Db.{Database, Tenant}
use whatsapp_commerce_bot.World.{World, pure, on_some}
use whatsapp_commerce_bot.Feed.{feed_url}
use whatsapp_commerce_bot.Onboarding.{Parsed}
use whatsapp_commerce_bot.Portal.{number_taken}
use whatsapp_commerce_bot.Portal.Guard.{Host}
use whatsapp_commerce_bot.Admin.{Answer, page, refused, onboarded}
use whatsapp_commerce_bot.Admin.Wizard.{WizardForm, create_products}
use whatsapp_commerce_bot.Admin.Wizard.Insert.{id_of}
use whatsapp_commerce_bot.Admin.Wizard.Made.{HasRoom, Made}
use whatsapp_commerce_bot.Admin.Wizard.Answers.{Outcome}

module _ (host : Host) (secret url : String) (form : WizardForm) (w : World)
    (below : IsBelow id_of w.db.tenants.next_id w.db.tenants.rows) (room : HasRoom w.db) where
  abbrev Result : Answer × World → Type 0
  Result = Outcome host secret url form w

  -- What follows the insert.
  after_insert : List Parsed → Option Tenant × Database → Answer × World
  after_insert ps r =
      on_some r.0 (pure (refused (number_taken ∷ [])))
        (λ t. create_products host t.id ps (page (onboarded t (length ps) (feed_url url t.id))))
        (record w { db = r.1 })
