-- ===== src/Feed.antt =====
-- catalog/feed.py: the product feed of a tenant, as the CSV text that Meta fetches. PUBLIC_BASE_URL is
-- an argument.
pub mod Laws
use Prim.Native.Char.{Char, code}
use Prim.Native.String.{◌++◌ as str_append}
use whatsapp_commerce_bot.Base.{
  ℕ, ◌+◌, ◌/◌, ◌%◌, String, Bool, Option, none, some, List, [], ◌∷◌, map, ◌==◌, ltb, truthy,
  or_else, if◌then◌else◌,
}
use whatsapp_commerce_bot.Base.Int.{ℤ, pos, ltb_ℤ}
use whatsapp_commerce_bot.Base.Text.{strip}
use whatsapp_commerce_bot.Base.Numeral.{decimal}
use whatsapp_commerce_bot.Base.Csv.{write_csv}
use whatsapp_commerce_bot.Db.{Database, Tenant, Product}
use whatsapp_commerce_bot.Db.Tenants.{get_tenant}
use whatsapp_commerce_bot.Db.Products.{get_active_products}

-- `s.rstrip("/")`
abbrev keep_before : Char → String → String
keep_before c String.[] = if code c == 47 then "" else String.◌∷◌ c ""
keep_before c (String.◌∷◌ d s) = String.◌∷◌ c (String.◌∷◌ d s)

unfoldable pub without_slashes : String → String
without_slashes String.[] = ""
without_slashes (String.◌∷◌ c s) = keep_before c (without_slashes s)

-- `_public_base_url`; `none` is PublicBaseURLNotConfigured.
abbrev configured : String → Option String
configured String.[] = none
configured (String.◌∷◌ c s) = some (without_slashes (String.◌∷◌ c s))

unfoldable pub public_base_url : String → Option String
public_base_url url = configured (strip url)

-- `feed_url`
unfoldable pub feed_url : String → ℕ → Option String
feed_url url tenant_id = elim (public_base_url url) [
  | none ↦ none
  | some base ↦
      some (str_append base (str_append "/catalog/" (str_append (decimal tenant_id) ".csv")))
]

-- _FEED_FIELDNAMES
abbrev pub feed_fieldnames : List String
feed_fieldnames =
    "id" ∷ "title" ∷ "description" ∷ "availability" ∷ "condition" ∷ "price" ∷ "link" ∷ "image_link"
    ∷ []

-- A NUMERIC(12, 2) as `str` writes it: with two decimals.
unfoldable pub two_digits : ℕ → String
two_digits n = if ltb n 10 then str_append "0" (decimal n) else decimal n

unfoldable pub numeric_text : ℕ → String
numeric_text paise = str_append (decimal (paise / 100)) (str_append "." (two_digits (paise % 100)))

-- `a or b`
abbrev pub either_text : Option String → String → String
either_text none b = b
either_text (some String.[]) b = b
either_text (some (String.◌∷◌ c s)) b = String.◌∷◌ c s

-- A row of the feed in the order of the columns; None is written as nothing.
unfoldable pub feed_row : String → Product → List String
feed_row base p =
    or_else p.catalog_retailer_id ""
    ∷ p.name
    ∷ either_text p.description p.name
    ∷ (if ltb_ℤ (pos 0) p.stock_quantity then "in stock" else "out of stock")
    ∷ "new"
    ∷ str_append (numeric_text p.price) (str_append " " p.currency)
    ∷ str_append base "/"
    ∷ either_text p.image_url ""
    ∷ []

-- No feed for a tenant that is not there or not active; an exception where the base URL is missing.
pub data FeedResult : Type 0 where
  no_feed not_configured : FeedResult
  feed : String → FeedResult

abbrev feed_of : Option String → List Product → FeedResult
feed_of none products = not_configured
feed_of (some base) products = feed (write_csv (feed_fieldnames ∷ map (feed_row base) products))

-- `build_feed_csv`
unfoldable pub build_feed_csv : String → ℕ → Database → FeedResult
build_feed_csv url tenant_id d = elim (get_tenant tenant_id d) [
  | none ↦ no_feed
  | some t ↦
      if t.is_active
      then feed_of (public_base_url url) (get_active_products tenant_id d)
      else no_feed
]
