-- ===== src/Portal/Settings.antt =====
-- portal/settings.py: the shop's settings and the portal's password.
use whatsapp_commerce_bot.Base.{
  ℕ, zero, suc, String, Bool, true, false, ◌&&◌, not, Option, none, some, List, [], ◌∷◌, ◌++◌,
  is_empty, str_eq, ltb, or_else, if◌then◌else◌,
}
use whatsapp_commerce_bot.Base.Int.{ℤ, pos, negsuc}
use whatsapp_commerce_bot.Base.Numeral.{int}
use whatsapp_commerce_bot.Db.{Tenant}
use whatsapp_commerce_bot.Db.Tenants.{
  get_tenant, update_tenant_catalog_and_payment, set_tenant_portal_password_hash,
}
use whatsapp_commerce_bot.World.{Env, Action, pure, query, execute, ◌>>=◌, ◌>>◌}
use whatsapp_commerce_bot.Portal.{
  Answer, page, refused, crashed, Form, field, or_null, FormError, bad_provider, bad_nudge_hours,
  wrong_password, short_password, unequal_passwords, settings_page,
}
use whatsapp_commerce_bot.Portal.Guard.{Host, signed_in}
use whatsapp_commerce_bot.Portal.Password.{verify_password, hash_password}
use whatsapp_commerce_bot.Portal.Products.{is_blank, error_if}

-- `_parse_nudge_hours`: nothing to write, a number above zero, or an error.
pub data Hours : Type 0 where
  keep wrong : Hours
  hours : ℕ → Hours

abbrev positive_hours : Option ℤ → Hours
positive_hours none = wrong
positive_hours (some (negsuc n)) = wrong
positive_hours (some (pos zero)) = wrong
positive_hours (some (pos (suc n))) = hours (suc n)

unfoldable pub parse_nudge_hours : String → Hours
parse_nudge_hours raw = if is_blank raw then keep else positive_hours (int raw)

abbrev hours_errors : Hours → List FormError
hours_errors wrong = bad_nudge_hours ∷ []
hours_errors keep = []
hours_errors (hours n) = []

abbrev pub hours_written : Hours → Option ℕ
hours_written wrong = none
hours_written keep = none
hours_written (hours n) = some n

-- _VALID_PAYMENT_PROVIDERS
unfoldable pub settings_errors : Form → List FormError
settings_errors form =
    let provider = field form "payment_gateway_provider" in
    error_if (not (is_blank provider) && not (str_eq provider "razorpay")) bad_provider
    ++ hours_errors (parse_nudge_hours (field form "abandoned_cart_nudge_hours"))

-- The column INTEGER refuses more hours.
abbrev pub fit : Option ℕ → Bool
fit none = true
fit (some n) = ltb n 2147483648

unfoldable pub length_of : String → ℕ
length_of String.[] = 0
length_of (String.◌∷◌ c s) = suc (length_of s)

-- A form's text, not stripped.
abbrev pub typed : Form → String → String
typed form key = or_else (form key) ""

module _ (host : Host) (env : Env) where
  unfoldable pub settings_written : Tenant → Form → Option ℕ → Action Answer
  settings_written t form nudge_hours = do
    execute (
        update_tenant_catalog_and_payment t.id (or_null (field form "meta_catalog_id"))
          (or_null (field form "payment_gateway_provider"))
          (or_null (field form "payment_gateway_key_id"))
          (or_null (field form "payment_gateway_api_key_ref"))
          (or_null (field form "payment_gateway_webhook_secret")) nudge_hours)
    tenant ← query (get_tenant t.id)
    pure (page (settings_page tenant true false))

  unfoldable pub submit_settings : Tenant → Form → Action Answer
  submit_settings t form =
      let written = hours_written (parse_nudge_hours (field form "abandoned_cart_nudge_hours")) in
      if is_empty (settings_errors form)
      then (if fit written then settings_written t form written else pure crashed)
      else pure (refused (settings_errors form))

  -- The first error alone.
  unfoldable pub password_errors : Tenant → Form → List FormError
  password_errors t form =
      if verify_password host.pbkdf2 (typed form "current_password") t.portal_password_hash
      then (if ltb (length_of (typed form "new_password")) 8
          then short_password ∷ []
          else error_if (not (str_eq (typed form "new_password") (typed form "confirm_password")))
              unequal_passwords)
      else wrong_password ∷ []

  unfoldable pub submit_password : Tenant → Form → Action Answer
  submit_password t form =
      if is_empty (password_errors t form)
      then (do
        execute (
            set_tenant_portal_password_hash t.id
              (hash_password host.pbkdf2 host.urandom (typed form "new_password")))
        tenant ← query (get_tenant t.id)
        pure (page (settings_page tenant false true)))
      else pure (refused (password_errors t form))

  module _ (cookie : Option String) where
    unfoldable pub settings_form : Action Answer
    settings_form = signed_in host env cookie λ t. pure (page (settings_page (some t) false false))

    unfoldable pub settings_submit : Form → Action Answer
    settings_submit form = signed_in host env cookie λ t. submit_settings t form

    unfoldable pub settings_password_submit : Form → Action Answer
    settings_password_submit form = signed_in host env cookie λ t. submit_password t form
