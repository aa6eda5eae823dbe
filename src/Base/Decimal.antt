-- ===== src/Base/Decimal.antt =====
-- Python's `Decimal(s)` and its comparisons with a whole number, as the forms use them. ASCII digits
-- only; no bound on the exponent.
use Prim.Native.Nat.{ℕ, suc, ◌+◌, ◌-◌, ◌*◌, ◌^◌}
use Prim.Native.Char.{Char, code}
use Prim.Native.String.{String}
use mathlib.Core.Bool.{Bool, true, false, ◌&&◌, ◌||◌, not}
use mathlib.Core.Option.{Option, none, some}
use mathlib.Core.Option
use mathlib.Core.Path.{◌≡◌, refl}
use mathlib.Core.List.{[], ◌∷◌}
use whatsapp_commerce_bot.Base.Tests.{ltb, ◌==◌, if◌then◌else◌}
use whatsapp_commerce_bot.Base.Int.{ℤ, pos, negsuc, ◌-ℤ◌}
use whatsapp_commerce_bot.Base.Text.{strip, lower_is_in, lower_code}
use whatsapp_commerce_bot.Base.Numeral.{is_digit, read_signed}

-- coefficient * 10 ^ exponent with a sign, which zero has too.
pub data Decimal : Type 0 where
  finite : (negative : Bool) (coefficient : ℕ) (exponent : ℤ) → Decimal
  infinite : (negative : Bool) → Decimal
  nan : Decimal

unfoldable pub without_underscores : String → String
without_underscores String.[] = ""
without_underscores (String.◌∷◌ c s) =
    if code c == 95 then without_underscores s else String.◌∷◌ c (without_underscores s)

abbrev is_exponent_mark : ℕ → Bool
is_exponent_mark c = (c == 101) || (c == 69)

-- The digits with at most one point, and the exponent: coefficient and exponent.
unfoldable pub read_number : (acc places : ℕ) (seen dot : Bool) → String → Option (ℕ × ℤ)
unfolding is_digit read_signed ◌-ℤ◌
read_number acc places seen dot String.[] = if seen then some (acc, pos 0 -ℤ pos places) else none
read_number acc places seen dot (String.◌∷◌ c s) =
    let d = is_digit (code c) in
    let point = code c == 46 in
    let rest =
      read_number (if d then acc * 10 + (code c - 48) else acc)
        (if d && dot then suc places else places) (seen || d) (dot || point) s in
    if d || (point && not dot)
    then rest
    else if seen && is_exponent_mark (code c)
    then Option.map (λ e. (acc, e -ℤ pos places)) (read_signed s)
    else none

unfoldable pub all_digits : String → Bool
unfolding is_digit
all_digits String.[] = true
all_digits (String.◌∷◌ c s) = is_digit (code c) && all_digits s

abbrev is_nan_tail : String → Bool
unfolding lower_code all_digits
is_nan_tail String.[] = false
is_nan_tail (String.◌∷◌ d t) = (lower_code (code d) == 110) && all_digits t

-- "NaN" and "sNaN", with digits behind them or none.
unfoldable pub is_nan : String → Bool
unfolding lower_code all_digits
is_nan (String.◌∷◌ a (String.◌∷◌ b (String.◌∷◌ c s))) =
    let low = λ (x : Char). lower_code (code x) in
    ((low a == 110) && (low b == 97) && (low c == 110) && all_digits s)
    || ((low a == 115) && (low b == 110) && (low c == 97) && is_nan_tail s)
is_nan s = false

unfoldable pub unsigned : Bool → String → Option Decimal
unfolding lower_is_in is_nan read_number
unsigned negative s =
    if lower_is_in s ("inf" ∷ "infinity" ∷ [])
    then some (infinite negative)
    else if is_nan s
    then some nan
    else Option.map (λ (r : ℕ × ℤ). finite negative r.0 r.1) (read_number 0 0 false false s)

unfoldable pub read_sign : String → Option Decimal
unfolding unsigned
read_sign String.[] = none
read_sign (String.◌∷◌ c s) =
    if code c == 45
    then unsigned true s
    else if code c == 43
    then unsigned false s
    else unsigned false (String.◌∷◌ c s)

-- `Decimal(s)`; `none` is its InvalidOperation.
unfoldable pub decimal_of : String → Option Decimal
unfolding strip without_underscores read_sign
decimal_of s = read_sign (without_underscores (strip s))

-- `d < 0`, `d <= 0` and `d > n`; `none` is the InvalidOperation that a NaN raises.
unfoldable pub lt_zero : Decimal → Option Bool
lt_zero (finite negative c e) = some (negative && ltb 0 c)
lt_zero (infinite negative) = some negative
lt_zero nan = none

unfoldable pub le_zero : Decimal → Option Bool
le_zero (finite negative c e) = some (negative || (c == 0))
le_zero (infinite negative) = some negative
le_zero nan = none

abbrev exceeds : ℕ → ℕ → ℤ → Bool
exceeds n c (pos e) = ltb n (c * 10 ^ e)
exceeds n c (negsuc e) = ltb (n * 10 ^ suc e) c

unfoldable pub gt_nat : ℕ → Decimal → Option Bool
gt_nat n (finite negative c e) = some (not negative && exceeds n c e)
gt_nat n (infinite negative) = some (not negative)
gt_nat n nan = none

decimal_test : decimal_of " -12.50e1 " ≡ some (finite true 1250 (negsuc 0))
unfolding decimal_of
decimal_test = refl

not_decimal : decimal_of "12,5" ≡ none
unfolding decimal_of
not_decimal = refl
