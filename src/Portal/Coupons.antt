-- ===== src/Portal/Coupons.antt =====
-- portal/coupons.py: the merchant's coupons, the form that adds one, and the toggle.
use whatsapp_commerce_bot.Base.{
  ℕ, String, Bool, true, false, ◌&&◌, not, Option, none, some, List, [], ◌∷◌, ◌++◌, is_empty,
  str_eq, is_some, if◌then◌else◌,
}
use whatsapp_commerce_bot.Base.Int.{ℤ}
use whatsapp_commerce_bot.Base.Decimal.{Decimal, decimal_of, le_zero, gt_nat}
use whatsapp_commerce_bot.Db.{Coupon, DiscountType, percentage, flat}
use whatsapp_commerce_bot.Db.Coupons.{get_coupon, list_coupons, create_coupon, set_coupon_active}
use whatsapp_commerce_bot.World.{Env, Action, pure, query, call, execute, ◌>>=◌, ◌>>◌, on_some}
use whatsapp_commerce_bot.Portal.{
  Answer, redirect, page, refused, not_found, crashed, Form, field, or_null, FormError,
  code_required, bad_discount_type, bad_discount_value, over_hundred_percent, duplicate_code,
  coupon_table, coupon_form,
}
use whatsapp_commerce_bot.Portal.Guard.{Host, signed_in, at_id}
use whatsapp_commerce_bot.Portal.Products.{is_blank, error_if}

-- `_coupon_form_values`
pub record CouponForm : Type 0 where
  pub code : String
  pub discount_type : String
  pub discount_value : String
  pub expires_at : String

unfoldable pub coupon_form_values : Form → CouponForm
coupon_form_values form = record {
  code = field form "code";
  discount_type = field form "discount_type";
  discount_value = field form "discount_value";
  expires_at = field form "expires_at";
}

unfoldable pub read_discount_type : String → Option DiscountType
read_discount_type s =
    if str_eq s "percentage" then some percentage else if str_eq s "flat" then some flat else none

-- The value, if it is a number above zero; a NaN raises InvalidOperation as well.
abbrev above_zero : Decimal → Option Bool → Option Decimal
above_zero d (some false) = some d
above_zero d (some true) = none
above_zero d none = none

abbrev checked_value : Option Decimal → Option Decimal
checked_value none = none
checked_value (some d) = above_zero d (le_zero d)

unfoldable pub read_discount_value : String → Option Decimal
read_discount_value s = checked_value (decimal_of s)

abbrev is_true : Option Bool → Bool
is_true none = false
is_true (some b) = b

abbrev value_errors : String → Option Decimal → List FormError
value_errors type none = bad_discount_value ∷ []
value_errors type (some d) =
    error_if (str_eq type "percentage" && is_true (gt_nat 100 d)) over_hundred_percent

-- `_validate_coupon_form`: the errors, in their order.
unfoldable pub coupon_form_errors : CouponForm → List FormError
coupon_form_errors v =
    error_if (is_blank v.code) code_required
    ++ (error_if (not (is_some (read_discount_type v.discount_type))) bad_discount_type
        ++ value_errors v.discount_type (read_discount_value v.discount_value))

-- A coupon's type and value as its row holds them, where the server takes the value.
abbrev numeric_value : Host → Option Decimal → Option ℕ
numeric_value host none = none
numeric_value host (some d) = host.numeric d

abbrev coupon_columns : Option DiscountType → Option ℕ → Option (DiscountType × ℕ)
coupon_columns (some type) (some value) = some (type, value)
coupon_columns (some type) none = none
coupon_columns none value = none

-- The IntegrityError of a code that is taken is an error of the form.
abbrev created_coupon : Option Coupon → Answer
created_coupon none = refused (duplicate_code ∷ [])
created_coupon (some c) = redirect "/portal/coupons"

module _ (host : Host) (env : Env) where
  abbrev add_coupon : ℕ → CouponForm → DiscountType × ℕ → Action Answer
  add_coupon tenant_id v (type, value) = do
    coupon ← call (create_coupon env.clock tenant_id v.code type value (or_null v.expires_at))
    pure (created_coupon coupon)

  unfoldable pub submit_coupon : ℕ → CouponForm → Action Answer
  submit_coupon tenant_id v =
      if is_empty (coupon_form_errors v)
      then on_some
          (coupon_columns (read_discount_type v.discount_type)
            (numeric_value host (read_discount_value v.discount_value)))
          (pure crashed) (add_coupon tenant_id v)
      else pure (refused (coupon_form_errors v))

  module _ (cookie : Option String) where
    unfoldable pub coupons_list : Action Answer
    coupons_list =
        signed_in host env cookie
          λ t. (do coupons ← query (list_coupons t.id); pure (page (coupon_table coupons)))

    unfoldable pub coupon_new_form : Action Answer
    coupon_new_form = signed_in host env cookie λ t. pure (page coupon_form)

    unfoldable pub coupon_new_submit : Form → Action Answer
    coupon_new_submit form =
        signed_in host env cookie λ t. submit_coupon t.id (coupon_form_values form)

    unfoldable pub coupon_toggle_active : ℤ → Action Answer
    coupon_toggle_active coupon_id = signed_in host env cookie λ t. at_id coupon_id λ i. (do
      coupon ← query (get_coupon t.id i)
      on_some coupon (pure not_found) λ c. (do
        execute (set_coupon_active t.id i (not c.is_active))
        pure (redirect "/portal/coupons")))
