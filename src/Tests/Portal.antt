-- ===== src/Tests/Portal.antt =====
-- The merchant portal's theorems on the small shop.
use Prim.Native.Char.{code}
use whatsapp_commerce_bot.Base.{
  All, ℕ, ◌<◌, ◌%◌, arith, sym, ◌+◌, ◌*◌, ◌≡◌, ◌≢◌, refl, ◌∙◌, String, true, false, str_eq, List,
  Option, none, some, [], ◌∷◌, ltb, if◌then◌else◌,
}
use whatsapp_commerce_bot.Base.Int.{ℤ, pos}
use whatsapp_commerce_bot.Base.Csv.{read_csv}
use whatsapp_commerce_bot.Base.Table.{select_one}
use whatsapp_commerce_bot.Base.Text.{strip}
use whatsapp_commerce_bot.Base.Decimal.{Decimal, decimal_of, finite, infinite, nan}
use whatsapp_commerce_bot.Db.Isolation.Shop.{shop_of}
use whatsapp_commerce_bot.Db.Products.{create_product}
use whatsapp_commerce_bot.Sessions.{cart}
use whatsapp_commerce_bot.Feed.{
  public_base_url, without_slashes, feed_fieldnames, feed, build_feed_csv,
}
use whatsapp_commerce_bot.Feed.Laws.{AreRows, on_sale, read_csv-build_feed_csv}
use whatsapp_commerce_bot.Portal.Cookie.{
  session_ttl, nobody, tenant_id, verify_session_cookie, create_session_cookie,
}
use whatsapp_commerce_bot.Portal.Cookie.Laws.{IsHex, verify-create_session_cookie}
use whatsapp_commerce_bot.Portal.Guard.{Host}
use whatsapp_commerce_bot.Portal.Password.{
  verify_password, hash_password, bytes_eq, pbkdf2_iterations,
}
use whatsapp_commerce_bot.Portal.Password.Laws.{IsByte, verify_password-hash_password}
use whatsapp_commerce_bot.Portal.Products.{ProductForm, submit_product, currency}
use whatsapp_commerce_bot.Portal.Products.Outcome.{Outcome, submit_product-Outcome}
use whatsapp_commerce_bot.Admin.Wizard.{WizardForm, parse_manual_products, at}
use whatsapp_commerce_bot.Admin.Wizard.Answers.{Outcome as WizardOutcome}
use whatsapp_commerce_bot.Portal.{Form}
use whatsapp_commerce_bot.Portal.Routes.{Request, portal_request}
use whatsapp_commerce_bot.Portal.Isolation.{portal_request-shop_of}
use whatsapp_commerce_bot.Portal.Signed.{Acts, portal_request-signed}
use whatsapp_commerce_bot.Db.Tenants.{get_tenant}
use whatsapp_commerce_bot.Tests.{env, shop, shop_tenant, world}

abbrev hundredths : Decimal → Option ℕ
hundredths (finite negative coefficient exponent) = some (coefficient * 100)
hundredths (infinite negative) = none
hundredths nan = none

abbrev first_byte : String → ℕ
first_byte String.[] = 0
first_byte (String.◌∷◌ c s) = code c % 256

abbrev host : Host
host = record {
  sign = λ payload. "c0ffee";
  pbkdf2 = λ password salt count. first_byte password ∷ 205 ∷ [];
  urandom = 7 ∷ 8 ∷ [];
  numeric = hundredths;
}

abbrev cookie : String
cookie = create_session_cookie host.sign 4000 1

hexadecimal : (s : String) → IsHex (host.sign s)
hexadecimal s = (refl, (refl, (refl, (refl, (refl, (refl, tt))))))

verify-create_session_cookie_example :
    verify_session_cookie host.sign 5000 (some cookie)
    ≡ (if ltb (4000 + session_ttl) 5000 then nobody else tenant_id (pos 1))
verify-create_session_cookie_example =
    verify-create_session_cookie host.sign hexadecimal 4000 5000 1

of_the_shop : verify_session_cookie host.sign 5000 (some cookie) ≢ tenant_id (pos 2)
of_the_shop e =
    let own : tenant_id (pos 1) ≡ tenant_id (pos 2) =
      sym (verify-create_session_cookie host.sign hexadecimal 4000 5000 1) ∙ e in
    cc

portal_request-shop_of_example :
    shop_of 2
      (portal_request host env (some cookie) (Request.toggle_product (pos 1)) (world cart)).1.db
    ≡ shop_of 2 (world cart).db
portal_request-shop_of_example =
    portal_request-shop_of host env (some cookie) (Request.toggle_product (pos 1)) (world cart) 2
      of_the_shop

portal_request-signed_example :
    Acts host env
      (some "1:9999999999.f0f0")
      (world cart)
      (portal_request host env (some "1:9999999999.f0f0") (Request.fulfil_order (pos 7)))
portal_request-signed_example =
    portal_request-signed host env (some "1:9999999999.f0f0") (world cart)
      (Request.fulfil_order (pos 7))

abbrev lamp : ProductForm
lamp = record {
  name = "Lamp, \"brass\"";
  price = "900";
  description = "";
  image_url = "";
  sku = "";
  stock_quantity = "4";
  category = "";
}

submit_product-Outcome_example :
    Outcome host lamp
      (create_product 1 currency)
      (world cart)
      (submit_product host lamp (create_product 1 currency) (world cart))
submit_product-Outcome_example =
    submit_product-Outcome host lamp (create_product 1 currency) (world cart)

shop_found : get_tenant 1 shop ≡ some shop_tenant
unfolding get_tenant select_one
shop_found = refl

base_set : public_base_url "https://shop.example/" ≡ some "https://shop.example"
unfolding public_base_url strip without_slashes
base_set = refl

read_csv-build_feed_csv_example :
    (text : String) × (build_feed_csv "https://shop.example/" 1 shop ≡ feed text)
    × ((rows : List (List String)) × (read_csv text ≡ some (feed_fieldnames ∷ rows))
        × AreRows "https://shop.example" (on_sale 1 shop) rows)
read_csv-build_feed_csv_example =
    read_csv-build_feed_csv "https://shop.example/" "https://shop.example" 1 shop_tenant shop
      shop_found refl base_set

-- A second shop, taken in with one product that is typed in.
abbrev answers : Form
answers key = elim (str_eq key "admin_secret") [
  | true ↦ some "open sesame"
  | false ↦ elim (str_eq key "name") [
    | true ↦ some " Lamps & Co "
    | false ↦ elim (str_eq key "whatsapp_phone_number_id") [ true ↦ some "9911" | false ↦ none ]
  ]
]

abbrev entries : String → List String
entries key = elim (str_eq key "product_name") [
  | true ↦ "Lamp" ∷ []
  | false ↦ elim (str_eq key "product_price") [ true ↦ "900" ∷ [] | false ↦ [] ]
]

abbrev wizard_form : WizardForm
wizard_form = record { get = answers; getlist = entries; csv_file = none }

parsed_test : parse_manual_products wizard_form ≡ record {
  products =
      record {
        name = "Lamp";
        price = finite false 900 (pos 0);
        description = none;
        image_url = none;
        sku = none;
        stock_quantity = pos 0;
        category = none;
      }
      ∷ [];
  errors = [];
}
unfolding parse_manual_products at strip decimal_of
parsed_test = refl

digest_bytes :
    (password : String) (salt : List ℕ) (n : ℤ) → All IsByte (host.pbkdf2 password salt n)
digest_bytes password salt n = (first_is_byte password, (omega arith, tt))
  where
    first_is_byte : (s : String) → first_byte s < 256
    first_is_byte String.[] = omega arith
    first_is_byte (String.◌∷◌ c s) = omega arith

verify_password-hash_password_example :
    (verify_password host.pbkdf2 "pepper" (some (hash_password host.pbkdf2 (7 ∷ 8 ∷ []) "pepper"))
      ≡ true)
    × (verify_password host.pbkdf2 "salt" (some (hash_password host.pbkdf2 (7 ∷ 8 ∷ []) "pepper"))
        ≡ bytes_eq
            (host.pbkdf2 "salt" (7 ∷ 8 ∷ []) (pos pbkdf2_iterations))
            (host.pbkdf2 "pepper" (7 ∷ 8 ∷ []) (pos pbkdf2_iterations)))
verify_password-hash_password_example =
    verify_password-hash_password host.pbkdf2 digest_bytes (7 ∷ 8 ∷ []) "pepper" "salt"
      (omega arith, (omega arith, tt))
