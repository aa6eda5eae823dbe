-- ===== src/Admin/Wizard/Answers.antt =====
-- What the wizard of admin/onboarding_wizard.py may answer, and what is then the case.
use whatsapp_commerce_bot.Base.{
  ℕ, suc, ◌≡◌, ◌≢◌, String, Bool, true, false, none, some, List, [], ◌∷◌, ◌++◌, length, str_eq, ltb,
  or_else,
}
use whatsapp_commerce_bot.Base.Table.{any_row}
use whatsapp_commerce_bot.Db.{Tenant, Product}
use whatsapp_commerce_bot.Db.Tenants.{holds_text, find_tenant_by_phone_number_id}
use whatsapp_commerce_bot.World.{World}
use whatsapp_commerce_bot.Feed.{feed_url}
use whatsapp_commerce_bot.Onboarding.{Parsed, Import}
use whatsapp_commerce_bot.Portal.{FormError, number_taken}
use whatsapp_commerce_bot.Portal.Guard.{Host}
use whatsapp_commerce_bot.Admin.{Answer, page, forbidden, crashed, refused, onboarded}
use whatsapp_commerce_bot.Admin.Wizard.{WizardForm, read_products, wizard_errors, new_tenant}
use whatsapp_commerce_bot.Admin.Wizard.Insert.{entered, number_of, IsEntered, with_tenant}
use whatsapp_commerce_bot.Admin.Wizard.Errors.{IsComplete}
use whatsapp_commerce_bot.Admin.Wizard.Made.{SameRest, AreProducts, IsRefused}

module _ (host : Host) (secret url : String) (form : WizardForm) (w : World) where
  abbrev pub tenant_of_form : Tenant
  tenant_of_form = entered form.get w.db

  -- The new tenant, as the form describes it, stands behind the others, and messages to its number
  -- are routed to it; products, each as it was entered, stand behind those that were there; and all
  -- else is as it was.
  pub record TakenIn (products : List Parsed) (w' : World) : Type 0 where
    pub tenants : w'.db.tenants.rows ≡ w.db.tenants.rows ++ tenant_of_form ∷ []
    pub described : IsEntered form.get w.db.tenants.next_id tenant_of_form
    pub routed : find_tenant_by_phone_number_id (number_of form.get) w'.db ≡ some tenant_of_form
    pub rows : List Product
    pub inserted : w'.db.products.rows ≡ w.db.products.rows ++ rows
    pub right : AreProducts host tenant_of_form.id products rows
    pub others : SameRest (record w { db = with_tenant form w.db }) w'

  abbrev pub InUse : Bool → Type 0
  InUse b =
      any_row (λ t. holds_text t.whatsapp_phone_number_id (number_of form.get)) w.db.tenants.rows
      ≡ b

  abbrev pub Permitted : Bool → Type 0
  Permitted b = str_eq (or_else (form.get "admin_secret") "") secret ≡ b

  abbrev pub Fits : Bool → Type 0
  Fits b = ltb (new_tenant form.get).abandoned_cart_nudge_hours 2147483648 ≡ b

  abbrev pub errors_of : Import → List FormError
  errors_of read = wizard_errors form.get ++ read.errors

  -- The form has the secret, its own fields are complete, and its products can be read as that,
  -- without an error.
  pub record InOrder (read : Import) : Type 0 where
    pub permitted : Permitted true
    pub read_as : read_products form ≡ some read
    pub complete : IsComplete form.get (new_tenant form.get).abandoned_cart_nudge_hours
    pub faultless : read.errors ≡ []

  abbrev pub answer_for : Import → Answer
  answer_for read =
      page (onboarded tenant_of_form (length read.products) (feed_url url tenant_of_form.id))

  abbrev pub with_used_id : World
  with_used_id = record w {
    db = record w.db { tenants = record w.db.tenants { next_id = suc w.db.tenants.next_id } };
  }

  -- Each answer with what it takes, and with what is then the case; no two of them can apply.
  pub data Outcome : Answer × World → Type 0 where
    denied : Permitted false → Outcome (forbidden, w)
    unreadable : Permitted true → read_products form ≡ none → Outcome (crashed, w)
    shown_again :
        (read : Import)
        → Permitted true
        → read_products form ≡ some read
        → ((n : ℕ) → IsComplete form.get n → read.errors ≢ [])
        → Outcome (refused (errors_of read), w)
    too_long : (read : Import) → InOrder read → Fits false → Outcome (crashed, w)
    number_in_use :
        (read : Import)
        → InOrder read
        → Fits true
        → InUse true
        → Outcome (refused (number_taken ∷ []), with_used_id)
    taken_in :
        (read : Import) (w' : World)
        → InOrder read
        → Fits true
        → InUse false
        → TakenIn read.products w'
        → Outcome (answer_for read, w')
    stopped :
        (read : Import) (before : List Parsed) (p : Parsed) (after : List Parsed) (w' : World)
        → InOrder read
        → Fits true
        → InUse false
        → read.products ≡ before ++ p ∷ after
        → IsRefused host tenant_of_form.id p
        → TakenIn before w'
        → Outcome (crashed, w')
