-- ===== src/Portal/Guard.antt =====
-- What every route of the portal starts with: `require_session` of portal/session.py, and the id in
-- its path; and the login of portal/auth.py.
use whatsapp_commerce_bot.Base.{ℕ, String, Bool, Option, none, some, List, if◌then◌else◌}
use whatsapp_commerce_bot.Base.Int.{ℤ, pos, negsuc, leb_ℤ, ltb_ℤ, by_id}
use whatsapp_commerce_bot.Base.{◌&&◌, or_else}
use whatsapp_commerce_bot.Base.Decimal.{Decimal}
use whatsapp_commerce_bot.Db.{Database, Tenant}
use whatsapp_commerce_bot.Db.Tenants.{get_tenant, find_tenant_by_phone_number_id}
use whatsapp_commerce_bot.World.{Env, Action, pure, query, ◌>>=◌, on_some}
use whatsapp_commerce_bot.Portal.{Answer, redirect, denied, not_found, crashed, Form, field}
use whatsapp_commerce_bot.Portal.Cookie.{
  Verified, nobody, tenant_id, type_error, verify_session_cookie, create_session_cookie,
}
use whatsapp_commerce_bot.Portal.Password.{verify_password}

-- What the portal's code asks of others: the HMAC of a payload, PBKDF2, sixteen random bytes, and
-- what the driver and the server keep of a Decimal in a column NUMERIC(12, 2), in hundredths, or
-- `none` where the statement is refused.
pub record Host : Type 0 where
  pub sign : String → String
  pub pbkdf2 : String → List ℕ → ℤ → List ℕ
  pub urandom : List ℕ
  pub numeric : Decimal → Option ℕ

-- What a column INTEGER holds.
abbrev pub fits_integer : ℤ → Bool
fits_integer i = leb_ℤ (negsuc 2147483647) i && ltb_ℤ i (pos 2147483648)

-- The tenant with that id, if it is active.
abbrev pub if_active : Option Tenant → Option Tenant
if_active none = none
if_active (some t) = if t.is_active then some t else none

unfoldable pub session_tenant : ℤ → Database → Option Tenant
session_tenant id d = if_active (by_id (λ n. get_tenant n d) id)

-- `require_session`, with the redirect that each route makes of its None.
abbrev pub admit : Verified → (Tenant → Action Answer) → Action Answer
admit nobody route = pure (redirect "/portal/login")
admit type_error route = pure crashed
admit (tenant_id id) route = do
  tenant ← query (session_tenant id)
  on_some tenant (pure (redirect "/portal/login")) route

module _ (host : Host) (env : Env) where
  unfoldable pub signed_in : Option String → (Tenant → Action Answer) → Action Answer
  signed_in cookie route = admit (verify_session_cookie host.sign env.clock.now cookie) route

  -- `login_submit` of portal/auth.py: the answer, and the cookie that it sets.
  abbrev pub check_login : String → Option Tenant → Answer × Option String
  check_login password none = (denied, none)
  check_login password (some t) =
      if verify_password host.pbkdf2 password t.portal_password_hash
      then (redirect "/portal/dashboard", some (create_session_cookie host.sign env.clock.now t.id))
      else (denied, none)

  abbrev pub tenant_of_number : String → Database → Option Tenant
  tenant_of_number String.[] d = none
  tenant_of_number (String.◌∷◌ c s) d = find_tenant_by_phone_number_id (String.◌∷◌ c s) d

  unfoldable pub login_submit : Form → Action (Answer × Option String)
  login_submit form = do
    tenant ← query (tenant_of_number (field form "whatsapp_phone_number_id"))
    pure (check_login (or_else (form "password") "") tenant)

-- An id in a path is an integer; no row has a negative one.
abbrev pub at_id : ℤ → (ℕ → Action Answer) → Action Answer
at_id (pos n) route = route n
at_id (negsuc n) route = pure not_found
