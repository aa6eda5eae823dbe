-- ===== src/Sessions.antt =====
-- The conversation state of core/history.py: `InMemorySessionStore`, keyed by tenant and phone.
pub mod Laws
pub mod Redis
pub mod Resets
use whatsapp_commerce_bot.Base.{
  ℕ, ◌-◌, String, Bool, ◌&&◌, Option, none, some, List, [], ◌∷◌, ◌==◌, ltb, str_eq, if◌then◌else◌,
}
use whatsapp_commerce_bot.Db.{Lang}
use whatsapp_commerce_bot.Db.Checkout.{Cart}

-- The STATE_ constants of core/commerce_flow.py; a value that is none of them is treated as IDLE.
pub data State : Type 0 where
  idle shop_list product_detail post_add cart apply_coupon collect_name order_list order_detail :
      State

-- The keys that the handlers put into a context; a key that is missing reads as None.
pub record Context : Type 0 where
  pub language : Option Lang
  pub shop_offset : Option ℕ
  pub cart : Option Cart
  pub product_id : Option ℕ
  pub order_id : Option ℕ
  pub coupon_code : Option String

abbrev pub empty_context : Context
empty_context = record {
  language = none;
  shop_offset = none;
  cart = none;
  product_id = none;
  order_id = none;
  coupon_code = none;
}

pub record Session : Type 0 where
  pub state : State
  pub context : Context

pub record Entry : Type 0 where
  pub tenant_id : ℕ
  pub phone : String
  pub session : Session
  pub updated_at : ℕ

abbrev pub Sessions : Type 0
Sessions = List Entry

-- SESSION_TIMEOUT_SECONDS
abbrev pub timeout : ℕ
timeout = 1800

abbrev pub is_key : ℕ → String → Entry → Bool
is_key tenant_id phone e = (e.tenant_id == tenant_id) && str_eq e.phone phone

abbrev pub default_session : Session
default_session = record { state = idle; context = empty_context }

-- `time.time() - updated_at > timeout`
unfoldable pub has_expired : ℕ → ℕ → Bool
has_expired now updated_at = ltb timeout (now - updated_at)

abbrev pub live : ℕ → Entry → Session
live now e = if has_expired now e.updated_at then default_session else e.session

unfoldable pub get : ℕ → ℕ → String → Sessions → Session
get now tenant_id phone [] = default_session
get now tenant_id phone (e ∷ es) =
    if is_key tenant_id phone e then live now e else get now tenant_id phone es

unfoldable pub set : ℕ → ℕ → String → State → Context → Sessions → Sessions
set now tenant_id phone state context [] =
    record {
      tenant_id = tenant_id;
      phone = phone;
      session = record { state = state; context = context };
      updated_at = now;
    }
    ∷ []
set now tenant_id phone state context (e ∷ es) =
    if is_key tenant_id phone e
    then record e { session = record { state = state; context = context }; updated_at = now } ∷ es
    else e ∷ set now tenant_id phone state context es

-- `pop(key, None)`
unfoldable pub reset : ℕ → String → Sessions → Sessions
reset tenant_id phone [] = []
reset tenant_id phone (e ∷ es) =
    if is_key tenant_id phone e then es else e ∷ reset tenant_id phone es
