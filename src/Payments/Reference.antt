-- ===== src/Payments/Reference.antt =====
-- The reference id of payments.py, built and read back.
use Prim.Native.Char.{Char, code}
use Prim.Native.String.{◌++◌ as str_append}
use text.Mathlib.TextLemmas.{nil-append, cons-append}
use whatsapp_commerce_bot.Base.{
  ℕ, ◌≡◌, refl, ap, ap₂, ◌∙◌, String, true, false, Option, none, some, arith, ◌==◌,
}
use whatsapp_commerce_bot.Base.Int.{pos}
use whatsapp_commerce_bot.Base.Numeral.{decimal, is_digit}
use whatsapp_commerce_bot.Base.Numeral.Laws.{AllDigits, decimal-AllDigits, int-decimal}
use whatsapp_commerce_bot.Payments.{
  partition, both, read_parts, build_reference_id, parse_reference_id,
}

digit_no_colon : (c : ℕ) → is_digit c ≡ true → (c == 58) ≡ false
unfolding is_digit
digit_no_colon c h = ground arith

abbrev prefixed : Char → Option (String × String) → Option (String × String)
prefixed c none = none
prefixed c (some (a, b)) = some (String.◌∷◌ c a, b)

partition-colon : (s : String) → partition (String.◌∷◌ ":" s) ≡ some ("", s)
unfolding partition
partition-colon s = refl

partition-digit :
    (c : Char) (s : String)
    → is_digit (code c) ≡ true
    → partition (String.◌∷◌ c s) ≡ prefixed c (partition s)
unfolding partition
partition-digit c s h = rw (digit_no_colon (code c) h)

pub partition-digits :
    (s tail : String)
    → AllDigits s
    → partition (str_append s (String.◌∷◌ ":" tail)) ≡ some (s, tail)
partition-digits String.[] tail h =
    ap partition (nil-append (String.◌∷◌ ":" tail)) ∙ partition-colon tail
partition-digits (String.◌∷◌ c s) tail h =
    ap partition (cons-append c s (String.◌∷◌ ":" tail))
    ∙ partition-digit c (str_append s (String.◌∷◌ ":" tail)) h.0
    ∙ ap (prefixed c) (partition-digits s tail h.1)

pub colon-append : (s : String) → str_append ":" s ≡ String.◌∷◌ ":" s
colon-append s = cons-append ":" "" s ∙ ap (String.◌∷◌ ":") (nil-append s)

-- The tenant and the order that a payment link was made for are read back from its reference id.
pub parse-build_reference_id :
    (tenant_id order_id : ℕ)
    → parse_reference_id (some (build_reference_id tenant_id order_id))
      ≡ some (pos tenant_id, pos order_id)
unfolding parse_reference_id build_reference_id
parse-build_reference_id t o =
    ap read_parts (
      ap (λ s. partition (str_append (decimal t) s)) (colon-append (decimal o))
      ∙ partition-digits (decimal t) (decimal o) (decimal-AllDigits t))
    ∙ ap₂ both (int-decimal t) (int-decimal o)
