-- ===== src/Phone.antt =====
-- core/phone.py. `\d` is read as the ASCII digits; `$` also matches before a line break at the end.
pub mod Laws
use Prim.Native.Char.{code}
use Prim.Native.String.{◌++◌ as str_append}
use whatsapp_commerce_bot.Base.{
  ℕ, zero, suc, ◌≡◌, String, Bool, true, false, ◌&&◌, Option, none, some, ◌==◌, if◌then◌else◌,
  arith, refl,
}
use whatsapp_commerce_bot.Base.Text.{after_prefix}
use whatsapp_commerce_bot.Base.Numeral.{is_digit}

-- `\d{n}$`
unfoldable pub is_digits_to_end : ℕ → String → Bool
unfolding is_digit
is_digits_to_end zero String.[] = true
is_digits_to_end zero (String.◌∷◌ c String.[]) = code c == 10
is_digits_to_end zero (String.◌∷◌ c (String.◌∷◌ d s)) = false
is_digits_to_end (suc n) String.[] = false
is_digits_to_end (suc n) (String.◌∷◌ c s) = is_digit (code c) && is_digits_to_end n s

abbrev pub without_nine : String → Option String → String
without_nine phone none = phone
without_nine phone (some rest) = if is_digits_to_end 10 rest then str_append "54" rest else phone

unfoldable pub normalize_phone : String → String
unfolding is_digits_to_end after_prefix
normalize_phone phone = without_nine phone (after_prefix "549" phone)
