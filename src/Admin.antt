-- ===== src/Admin.antt =====
-- admin/: what the operator's pages answer. A wrong secret is 403, a form with errors 400.
pub mod Wizard
pub mod Settings
use whatsapp_commerce_bot.Base.{ℕ, String, Option, List}
use whatsapp_commerce_bot.Db.{Tenant}
use whatsapp_commerce_bot.Portal.{FormError}

pub data Content : Type 0 where
  wizard_form : Content
  onboarded : Tenant → (product_count : ℕ) → (feed_url : Option String) → Content
  catalog_form catalog_saved : Tenant → Content
  password_form password_saved : Tenant → Content

pub data Answer : Type 0 where
  page : Content → Answer
  forbidden not_found crashed : Answer
  refused : List FormError → Answer
