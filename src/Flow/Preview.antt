-- ===== src/Flow/Preview.antt =====
-- The coupon's lines of `_send_cart` (core/commerce_flow.py) beside the coupon of `checkout_cart`
-- (db/repository.py).
use whatsapp_commerce_bot.Base.{
  ℕ, ◌-◌, ◌≡◌, refl, String, Bool, true, false, Option, none, some, List, [], ◌∷◌, truthy, or_else,
  if◌then◌else◌,
}
use whatsapp_commerce_bot.Db.{Database, Coupon, Lang}
use whatsapp_commerce_bot.Db.Coupons.{
  CouponError, get_coupon_by_code, coupon_validity_error, compute_discount,
}
use whatsapp_commerce_bot.Db.Checkout.{discounted, applied_coupon}
use whatsapp_commerce_bot.Message.{text, money, Part, say, newline}
use whatsapp_commerce_bot.World.{Env}
use whatsapp_commerce_bot.Flow.Prompts.{preview, coupon_preview}

-- The lines for a coupon's code and discount.
abbrev pub shown : Lang → ℕ → Option (String × ℕ) → List Part
shown lang subtotal none = []
shown lang subtotal (some (code, discount)) =
    newline
    ∷ say "coupon_discount_label" lang (("code", text code) ∷ ("amount", money discount) ∷ [])
    ∷ newline
    ∷ say "order_total_label" lang (("amount", money (subtotal - discount)) ∷ [])
    ∷ []

abbrev offered : Env → Lang → ℕ → Option Coupon → List Part
offered env lang subtotal none = []
offered env lang subtotal (some c) = elim (coupon_validity_error env.clock (some c)) [
  | none ↦ preview lang subtotal c
  | some e ↦ []
]

offered-discounted :
    (env : Env) (lang : Lang) (subtotal : ℕ) (c : Option Coupon)
    → offered env lang subtotal c ≡ shown lang subtotal (discounted env.clock subtotal c)
offered-discounted env lang subtotal none = refl
offered-discounted env lang subtotal (some c) = by_error (coupon_validity_error env.clock (some c))
  where
    by_error :
        (e : Option CouponError)
        → elim e [ none ↦ preview lang subtotal c | some x ↦ [] ]
          ≡ shown lang subtotal (elim e [
            | none ↦ some (c.code, compute_discount subtotal c.discount_type c.discount_value)
            | some x ↦ none
          ])
    by_error none = refl
    by_error (some x) = refl

-- What the cart shows is what checkout charges: for the same subtotal, database and day, the cart
-- shows the coupon's code, the discount and the total that a checkout applies, and shows none
-- where checkout applies none.
pub coupon_preview-applied_coupon :
    (env : Env) (tenant_id : ℕ) (lang : Lang) (subtotal : ℕ) (code : Option String) (d : Database)
    → coupon_preview env tenant_id lang subtotal code d
      ≡ shown lang subtotal (applied_coupon env.clock tenant_id code subtotal d)
unfolding coupon_preview applied_coupon
coupon_preview-applied_coupon env t lang subtotal code d =
    by_code (truthy code) (get_coupon_by_code env.clock t (or_else code "") d)
  where
    by_code :
        (b : Bool) (c : Option Coupon)
        → (if b then offered env lang subtotal c else [])
          ≡ shown lang subtotal (if b then discounted env.clock subtotal c else none)
    by_code true c = offered-discounted env lang subtotal c
    by_code false c = refl
