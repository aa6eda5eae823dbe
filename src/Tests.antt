-- ===== src/Tests.antt =====
-- A small shop, its customers and its clock, on which the theorems are tried out.
mod Store
mod Pages
mod Conversation
mod Jobs
mod Portal
mod Remote
mod Texts
use whatsapp_commerce_bot.Base.{ℕ, String, Bool, true, false, Option, none, some, List, [], ◌∷◌}
use whatsapp_commerce_bot.Base.Int.{ℤ, pos}
use whatsapp_commerce_bot.Db.{
  Tenant, Product, Order, Status, pending_payment, paid, fulfilled, Customer, Database, Clock, Lang,
  en, hi,
}
use whatsapp_commerce_bot.Db.Checkout.{Cart}
use whatsapp_commerce_bot.Sessions.{State, cart, product_detail, Context, Entry, empty_context}
use whatsapp_commerce_bot.World.{Env, World}

abbrev pub phone : String
phone = "919800000001"

abbrev pub clock : Clock
clock = record { now = 5000; today = "2026-01-15"; upper = λ s. s }

abbrev pub env : Env
env = record {
  clock = clock;
  accepts = λ m. true;
  gateway = λ r. some ("https://rzp.io/i/x", "plink_1");
}

abbrev pub shop_tenant : Tenant
shop_tenant = record {
  id = 1;
  name = "Spice Shop";
  whatsapp_phone_number_id = some "100";
  access_token = none;
  app_secret = none;
  meta_catalog_id = none;
  payment_gateway_provider = some "razorpay";
  payment_gateway_key_id = some "key";
  payment_gateway_api_key_ref = some "secret";
  payment_gateway_webhook_secret = none;
  welcome_message_text = none;
  timezone = "Asia/Kolkata";
  abandoned_cart_nudge_hours = 24;
  is_active = true;
  data_tier = "standard";
  external_api_base_url = none;
  external_api_key = none;
  portal_password_hash = none;
}

abbrev pub product : ℕ → ℕ → String → ℕ → ℕ → String → Product
product id tenant_id name price stock category = record {
  id = id;
  tenant_id = tenant_id;
  name = name;
  price = price;
  currency = "INR";
  description = none;
  image_url = none;
  sku = none;
  stock_quantity = pos stock;
  category = some category;
  is_active = true;
  catalog_retailer_id = some "t1-p1";
}

abbrev pub mango : Product
mango = product 1 1 "Mango pickle" 25000 3 "Pickles"

abbrev pub tea : Product
tea = product 2 1 "Tea" 12000 0 "Drinks"

abbrev pub soap : Product
soap = product 3 2 "Soap" 4000 9 ""

abbrev pub products : List Product
products = mango ∷ tea ∷ soap ∷ []

abbrev pub placed_order : Status → Option ℕ → Order
placed_order status paid_at = record {
  id = 7;
  tenant_id = 1;
  customer_phone = phone;
  status = status;
  payment_link_url = none;
  payment_gateway_reference = none;
  subtotal = some 25000;
  total = some 25000;
  created_at = 4000;
  paid_at = paid_at;
  nudge_sent_at = none;
  payment_method = none;
  language = hi;
  coupon_code = none;
  discount_amount = none;
}

abbrev pub database : Order → Database
database o = record {
  tenants = record { rows = shop_tenant ∷ []; next_id = 2 };
  products = record { rows = products; next_id = 4 };
  orders = record { rows = o ∷ []; next_id = 8 };
  order_items = record { rows = []; next_id = 1 };
  coupons = record { rows = []; next_id = 1 };
  customers =
      record { tenant_id = 1; phone = phone; name = "Asha"; created_at = 1; updated_at = 1 } ∷ [];
}

abbrev pub pending : Order
pending = placed_order pending_payment none

abbrev pub shop : Database
shop = database pending

-- One mango pickle, and a tea that is out of stock.
abbrev pub basket : Cart
basket = (1, 2) ∷ (2, 1) ∷ []

abbrev pub looking : Context
looking = record empty_context { language = some hi; cart = some basket; product_id = some 1 }

abbrev pub world : State → World
world state = record {
  db = shop;
  sessions =
      record {
        tenant_id = 1;
        phone = phone;
        session = record { state = state; context = looking };
        updated_at = 4900;
      }
      ∷ [];
  sent = [];
}
