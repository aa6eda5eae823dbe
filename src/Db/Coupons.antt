-- ===== src/Db/Coupons.antt =====
-- db/repository.py, the coupons: the portal's inserts and toggles, the lookup by code, what makes a
-- coupon valid, and the discount that it gives.
pub mod Discount
use whatsapp_commerce_bot.Base.{
  ℕ, suc, ◌+◌, ◌*◌, ◌/◌, ◌%◌, min, String, Bool, true, false, ◌&&◌, not, Option, none, some, List,
  ◌==◌, str_eq, str_lt, truthy, ltb, select, order_by_desc, if◌then◌else◌,
}
use whatsapp_commerce_bot.Base.Text.{strip}
use whatsapp_commerce_bot.Base.Table.{select_one, any_row, update_table, insert_row}
use whatsapp_commerce_bot.Db.{Database, Coupon, DiscountType, percentage, flat, Clock}

abbrev pub is_coupon : ℕ → ℕ → Coupon → Bool
is_coupon tenant_id coupon_id c = (c.tenant_id == tenant_id) && (c.id == coupon_id)

unfoldable pub get_coupon : ℕ → ℕ → Database → Option Coupon
get_coupon tenant_id coupon_id d = select_one (is_coupon tenant_id coupon_id) d.coupons.rows

abbrev pub has_code : Clock → ℕ → String → Coupon → Bool
has_code clock tenant_id code c =
    (c.tenant_id == tenant_id) && str_eq (clock.upper c.code) (clock.upper code)

unfoldable pub get_coupon_by_code : Clock → ℕ → String → Database → Option Coupon
get_coupon_by_code clock tenant_id code d =
    select_one (has_code clock tenant_id code) d.coupons.rows

-- `none` is the IntegrityError of UNIQUE(tenant_id, code); the sequence has moved on.
unfoldable pub create_coupon :
    Clock → ℕ → String → DiscountType → ℕ → Option String → Database → Option Coupon × Database
create_coupon clock tenant_id code discount_type discount_value expires_at d =
    let stored = clock.upper (strip code) in
    let row = λ (id : ℕ).
      let c : Coupon = record {
        id = id;
        tenant_id = tenant_id;
        code = stored;
        discount_type = discount_type;
        discount_value = discount_value;
        is_active = true;
        expires_at = expires_at;
        created_at = clock.now;
      } in
      c in
    let d' = record d { coupons = insert_row row d.coupons } in
    if any_row (λ c. (c.tenant_id == tenant_id) && str_eq c.code stored) d.coupons.rows
    then (none, record d { coupons = record d.coupons { next_id = suc d.coupons.next_id } })
    else (get_coupon tenant_id d.coupons.next_id d', d')

unfoldable pub list_coupons : ℕ → Database → List Coupon
list_coupons tenant_id d =
    order_by_desc (λ c. c.created_at) (select (λ c. c.tenant_id == tenant_id) d.coupons.rows)

unfoldable pub set_coupon_active : ℕ → ℕ → Bool → Database → Database
set_coupon_active tenant_id coupon_id is_active d = record d {
  coupons =
      update_table (is_coupon tenant_id coupon_id) (λ c. record c { is_active = is_active })
        d.coupons;
}

pub data CouponError : Type 0 where
  not_found inactive expired : CouponError

-- `expires_at and expires_at < today`
abbrev pub is_past : Option String → String → Bool
is_past none today = false
is_past (some day) today = truthy (some day) && str_lt day today

unfoldable pub coupon_validity_error : Clock → Option Coupon → Option CouponError
coupon_validity_error clock none = some not_found
coupon_validity_error clock (some c) =
    if not c.is_active
    then some inactive
    else if is_past c.expires_at clock.today
    then some expired
    else none

abbrev pub is_valid : Clock → Coupon → Bool
is_valid clock c = c.is_active && not (is_past c.expires_at clock.today)

unfoldable pub list_active_coupons : Clock → ℕ → Database → List Coupon
list_active_coupons clock tenant_id d =
    select (λ c. elim (coupon_validity_error clock (some c)) [ none ↦ true | some e ↦ false ])
      (list_coupons tenant_id d)

-- `Decimal.quantize` in its default mode, of the fraction n / d to a whole number.
unfoldable pub round_half_even : ℕ → ℕ → ℕ
round_half_even n d =
    let q = n / d in
    let r = n % d in if ltb (2 * r) d then q else if ltb d (2 * r) then suc q else q + q % 2

-- The percentage is taken in ten-thousandths of a paisa, where both sides of `min` are whole.
unfoldable pub compute_discount : ℕ → DiscountType → ℕ → ℕ
unfolding round_half_even
compute_discount subtotal percentage value =
    round_half_even (min (subtotal * value) (subtotal * 10000)) 10000
compute_discount subtotal flat value = min value subtotal
