-- ===== src/Db/Coupons/Discount.antt =====
-- Bounds of `compute_discount`, and what the rounding costs.
use whatsapp_commerce_bot.Base.{ℕ, ◌+◌, ◌*◌, ◌≤◌, min, arith}
use whatsapp_commerce_bot.Db.{DiscountType, percentage, flat}
use whatsapp_commerce_bot.Db.Coupons.{round_half_even, compute_discount}

-- Rounding moves a fraction by half a unit at most.
pub round_half_even_near :
    (n : ℕ)
    → (2 * (round_half_even n 10000 * 10000) ≤ 2 * n + 10000)
      × (2 * n ≤ 2 * (round_half_even n 10000 * 10000) + 10000)
unfolding round_half_even
round_half_even_near n = ground arith

-- Where the fraction is at most a whole number, so is its rounding.
round_half_even-le : (n m : ℕ) → n ≤ m * 10000 → round_half_even n 10000 ≤ m
round_half_even-le n m h = omega (arith, (round_half_even_near n).0)

-- A discount of either kind, whatever its value, never exceeds the subtotal.
pub compute_discount-le :
    (subtotal : ℕ) (kind : DiscountType) (value : ℕ)
    → compute_discount subtotal kind value ≤ subtotal
unfolding compute_discount
compute_discount-le subtotal percentage value =
    round_half_even-le (min (subtotal * value) (subtotal * 10000)) subtotal (omega arith)
compute_discount-le subtotal flat value = omega arith
