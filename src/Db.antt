-- ===== src/Db.antt =====
-- db/schema.sql and the row classes of db/repository.py. Amounts of money are paise, the hundredth
-- parts in which NUMERIC(12, 2) counts; instants are seconds, where the columns hold the text of
-- `now()` and the queries cast it back. Ids are the values of a SERIAL column.
pub mod Tenants
pub mod Products
pub mod Orders
pub mod Coupons
pub mod Customers
pub mod Checkout
pub mod Isolation
use whatsapp_commerce_bot.Base.{ℕ, String, Bool, Option, List, ◌==◌, str_eq, false, true}
use whatsapp_commerce_bot.Base.Int.{ℤ}
use whatsapp_commerce_bot.Base.Table.{Table}

pub record Tenant : Type 0 where
  pub id : ℕ
  pub name : String
  pub whatsapp_phone_number_id : Option String
  pub access_token : Option String
  pub app_secret : Option String
  pub meta_catalog_id : Option String
  pub payment_gateway_provider : Option String
  pub payment_gateway_key_id : Option String
  pub payment_gateway_api_key_ref : Option String
  pub payment_gateway_webhook_secret : Option String
  pub welcome_message_text : Option String
  pub timezone : String
  pub abandoned_cart_nudge_hours : ℕ
  pub is_active : Bool
  pub data_tier : String
  pub external_api_base_url : Option String
  pub external_api_key : Option String
  pub portal_password_hash : Option String

pub record Product : Type 0 where
  pub id : ℕ
  pub tenant_id : ℕ
  pub name : String
  pub price : ℕ
  pub currency : String
  pub description : Option String
  pub image_url : Option String
  pub sku : Option String
  pub stock_quantity : ℤ
  pub category : Option String
  pub is_active : Bool
  pub catalog_retailer_id : Option String

-- ORDER_STATUS_BROWSING and so on.
pub data Status : Type 0 where
  browsing pending_payment paid failed cancelled fulfilled : Status

abbrev pub status_eq : Status → Status → Bool
status_eq browsing browsing = true
status_eq pending_payment pending_payment = true
status_eq paid paid = true
status_eq failed failed = true
status_eq cancelled cancelled = true
status_eq fulfilled fulfilled = true
status_eq _ _ = false

-- LANG_EN and LANG_HI of core/strings.py.
pub data Lang : Type 0 where
  en hi : Lang

pub record Order : Type 0 where
  pub id : ℕ
  pub tenant_id : ℕ
  pub customer_phone : String
  pub status : Status
  pub payment_link_url : Option String
  pub payment_gateway_reference : Option String
  pub subtotal : Option ℕ
  pub total : Option ℕ
  pub created_at : ℕ
  pub paid_at : Option ℕ
  pub nudge_sent_at : Option ℕ
  pub payment_method : Option String
  pub language : Lang
  pub coupon_code : Option String
  pub discount_amount : Option ℕ

pub record OrderItem : Type 0 where
  pub id : ℕ
  pub tenant_id : ℕ
  pub order_id : ℕ
  pub product_id : ℕ
  pub quantity : ℕ
  pub unit_price_at_order_time : ℕ

pub record Customer : Type 0 where
  pub tenant_id : ℕ
  pub phone : String
  pub name : String
  pub created_at : ℕ
  pub updated_at : ℕ

-- COUPON_TYPE_PERCENTAGE and COUPON_TYPE_FLAT.
pub data DiscountType : Type 0 where
  percentage flat : DiscountType

-- `discount_value` counts hundredths, of a percent or of a rupee.
pub record Coupon : Type 0 where
  pub id : ℕ
  pub tenant_id : ℕ
  pub code : String
  pub discount_type : DiscountType
  pub discount_value : ℕ
  pub is_active : Bool
  pub expires_at : Option String
  pub created_at : ℕ

pub record Database : Type 0 where
  pub tenants : Table Tenant
  pub products : Table Product
  pub orders : Table Order
  pub order_items : Table OrderItem
  pub coupons : Table Coupon
  pub customers : List Customer

-- What a call of the repository reads from outside: the clock as seconds and as the local date's
-- ISO text, and `UPPER`, which the server's locale decides.
pub record Clock : Type 0 where
  pub now : ℕ
  pub today : String
  pub upper : String → String
