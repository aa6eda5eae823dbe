-- ===== src/Portal/Signed.antt =====
-- Who can act through the portal: the routes change nothing without a session.
use whatsapp_commerce_bot.Base.{
  ℕ, ◌≡◌, refl, sym, ap, ◌∙◌, ◌⊎◌, inl, inr, String, Bool, true, false, Option, none, some, arith,
  eq_iff, str_eq, Option-cases, if◌then◌else◌,
}
use whatsapp_commerce_bot.Base.Int.{ℤ, pos, ◌≤ℤ◌, by_id}
use whatsapp_commerce_bot.Db.{Database, Tenant}
use whatsapp_commerce_bot.Db.Tenants.{get_tenant}
use whatsapp_commerce_bot.World.{Env, World, Action, pure, query, ◌>>=◌}
use whatsapp_commerce_bot.World.Keeps.{on_some-missing}
use whatsapp_commerce_bot.Portal.{Answer, redirect}
use whatsapp_commerce_bot.Portal.Cookie.{
  rpartition, split_at, is_ascii, read_payload, Verified, nobody, tenant_id, type_error, current,
  signed_payload, parted, verify_session_cookie,
}
use whatsapp_commerce_bot.Portal.Guard.{Host, if_active, session_tenant, admit, signed_in}
use whatsapp_commerce_bot.Portal.Routes.{Request, portal_request}
use whatsapp_commerce_bot.Portal.Products.{
  products_list, product_new_form, product_new_submit, product_edit_form, product_edit_submit,
  product_toggle_active, products_import_form, products_import_submit,
}
use whatsapp_commerce_bot.Portal.Coupons.{
  coupons_list, coupon_new_form, coupon_new_submit, coupon_toggle_active,
}
use whatsapp_commerce_bot.Portal.Orders.{orders_list, order_detail, order_fulfill}
use whatsapp_commerce_bot.Portal.Settings.{settings_form, settings_submit, settings_password_submit}

-- A cookie that the portal's secret signed for an id, and that has not expired.
pub record IsSigned (sign : String → String) (now : ℕ) (cookie : String) (id : ℤ) : Type 0 where
  pub payload : String
  pub parts : rpartition cookie ≡ some (payload, sign payload)
  pub expiry : ℤ
  pub claims : read_payload (split_at 58 payload) ≡ some (id, expiry)
  pub fresh : pos now ≤ℤ expiry

both_tests :
    (a b : Bool) (v : Verified) (id : ℤ)
    → (if a then (if b then v else nobody) else type_error) ≡ tenant_id id
    → (b ≡ true) × (v ≡ tenant_id id)
both_tests true true v id e = (refl, e)
both_tests true false v id e = cc
both_tests false b v id e = cc

module _ (sign : String → String) (now : ℕ) where
  current-id :
      (claims : Option (ℤ × ℤ)) (id : ℤ)
      → current now claims ≡ tenant_id id
      → (expiry : ℤ) × (claims ≡ some (id, expiry)) × (pos now ≤ℤ expiry)
  unfolding current
  current-id none id e = cc
  current-id (some (i, expiry)) id e = (expiry, ground arith, ground arith)

  payload-IsSigned :
      (cookie payload signature : String) (id : ℤ)
      → rpartition cookie ≡ some (payload, signature)
      → signed_payload sign now payload signature ≡ tenant_id id
      → IsSigned sign now cookie id
  payload-IsSigned cookie payload signature id parts e =
      let (same, now_current) =
        both_tests (is_ascii signature) (str_eq (sign payload) signature)
          (current now (read_payload (split_at 58 payload))) id e in
      let (expiry, claims, fresh) =
        current-id (read_payload (split_at 58 payload)) id now_current in
      record {
        payload = payload;
        parts =
            parts ∙ ap (λ s. some (payload, s)) (sym ((eq_iff (sign payload) signature).0 same));
        expiry = expiry;
        claims = claims;
        fresh = fresh;
      }

  cookie-IsSigned :
      (cookie : String) (id : ℤ)
      → verify_session_cookie sign now (some cookie) ≡ tenant_id id
      → IsSigned sign now cookie id
  unfolding verify_session_cookie
  cookie-IsSigned cookie id e = elim (Option-cases (rpartition cookie)) [
    | inl missing ↦
        let e' : parted sign now none ≡ tenant_id id = sym (ap (parted sign now) missing) ∙ e in cc
    | inr ((payload, signature), parts) ↦
        payload-IsSigned cookie payload signature id parts (sym (ap (parted sign now) parts) ∙ e)
  ]

-- The request carries such a cookie, for the id of a tenant in the database that is active.
pub record HasSession (host : Host) (env : Env) (cookie : Option String) (d : Database) (t : Tenant)
    : Type 0 where
  pub text : String
  pub given : cookie ≡ some text
  pub id : ℤ
  pub signed : IsSigned host.sign env.clock.now text id
  pub found : by_id (λ n. get_tenant n d) id ≡ some t
  pub active : t.is_active ≡ true

if-some :
    (b : Bool) (r t : Tenant)
    → (if b then some r else none) ≡ some t
    → (some r ≡ some t) × (b ≡ true)
if-some true r t e = (e, refl)
if-some false r t e = cc

abbrev is_active_in : Option Tenant → Bool
is_active_in none = false
is_active_in (some t) = t.is_active

if_active-some :
    (o : Option Tenant) (t : Tenant) → if_active o ≡ some t → (o ≡ some t) × (t.is_active ≡ true)
if_active-some none t e = cc
if_active-some (some r) t e =
    let (same, active) = if-some r.is_active r t e in (same, sym (ap is_active_in same) ∙ active)

session-of :
    (host : Host) (env : Env) (cookie : Option String) (d : Database) (i : ℤ) (t : Tenant)
    → verify_session_cookie host.sign env.clock.now cookie ≡ tenant_id i
    → session_tenant i d ≡ some t
    → HasSession host env cookie d t
unfolding verify_session_cookie session_tenant
session-of host env none d i t e found = cc
session-of host env (some c) d i t e found = record {
  text = c;
  given = refl;
  id = i;
  signed = cookie-IsSigned host.sign env.clock.now c i e;
  found = (if_active-some (by_id (λ n. get_tenant n d) i) t found).0;
  active = (if_active-some (by_id (λ n. get_tenant n d) i) t found).1;
}

module _ (host : Host) (env : Env) (cookie : Option String) (w : World) where
  abbrev pub Acts : Action Answer → Type 0
  Acts m = ((m w).1 ≡ w) ⊎ ((t : Tenant) × HasSession host env cookie w.db t)

  admit-Acts :
      (v : Verified) (route : Tenant → Action Answer)
      → verify_session_cookie host.sign env.clock.now cookie ≡ v
      → Acts (admit v route)
  unfolding query ◌>>=◌ pure
  admit-Acts nobody route e = inl refl
  admit-Acts type_error route e = inl refl
  admit-Acts (tenant_id i) route e = elim (Option-cases (session_tenant i w.db)) [
    | inl missing ↦ inl (
        ap (λ (r : Answer × World). r.1)
          (on_some-missing (session_tenant i w.db) (pure (redirect "/portal/login")) route w
            missing))
    | inr (t, found) ↦ inr (t, session-of host env cookie w.db i t e found)
  ]

  signed_in-Acts : (route : Tenant → Action Answer) → Acts (signed_in host env cookie route)
  unfolding signed_in
  signed_in-Acts route = admit-Acts _ route refl

  -- Only a session acts: either the request changes nothing, or its cookie was signed with the
  -- portal's secret for the id of a tenant that is in the database and active, and has not expired.
  pub portal_request-signed : (r : Request) → Acts (portal_request host env cookie r)
  unfolding portal_request products_list product_new_form products_import_form coupons_list
      coupon_new_form settings_form product_new_submit coupon_new_submit settings_submit
      settings_password_submit product_edit_form product_toggle_active coupon_toggle_active
      order_detail order_fulfill product_edit_submit products_import_submit orders_list
  portal_request-signed Request.list_products = signed_in-Acts _
  portal_request-signed _ = signed_in-Acts _
