-- ===== src/Phone/Laws.antt =====
-- `normalize_phone` of core/phone.py, applied twice.
use Prim.Native.Char.{Char, code}
use Prim.Native.String.{◌++◌ as str_append}
use text.Mathlib.TextLemmas.{nil-append, cons-append}
use whatsapp_commerce_bot.Base.{
  ℕ, zero, suc, ◌≡◌, refl, ap, ◌∙◌, inl, inr, String, true, false, arith, Option-cases, Bool-cases,
  ◌==◌,
}
use whatsapp_commerce_bot.Base.Text.{after_prefix}
use whatsapp_commerce_bot.Base.Numeral.{is_digit}
use whatsapp_commerce_bot.Phone.{is_digits_to_end, without_nine, normalize_phone}

-- A text that ends after n digits does not end after one more.
not_one_more :
    (n : ℕ) (s : String) → is_digits_to_end n s ≡ true → is_digits_to_end (suc n) s ≡ false
unfolding is_digits_to_end is_digit
not_one_more zero String.[] h = refl
not_one_more zero (String.◌∷◌ c String.[]) h = ground arith
not_one_more zero (String.◌∷◌ c (String.◌∷◌ d s)) h = cc
not_one_more (suc n) String.[] h = cc
not_one_more (suc n) (String.◌∷◌ c s) h = ground (arith, not_one_more n s)

digits_behind :
    (n : ℕ) (c : Char) (s : String)
    → is_digits_to_end (suc n) (String.◌∷◌ c s) ≡ true
    → is_digits_to_end n s ≡ true
unfolding is_digits_to_end
digits_behind n c s h = ground arith

prefix_54 : (s : String) → str_append "54" s ≡ String.◌∷◌ "5" (String.◌∷◌ "4" s)
prefix_54 s =
    cons-append "5" "4" s
    ∙ ap (String.◌∷◌ "5") (cons-append "4" "" s ∙ ap (String.◌∷◌ "4") (nil-append s))

unchanged :
    (rest : String)
    → is_digits_to_end 10 rest ≡ true
    → without_nine
        (String.◌∷◌ "5" (String.◌∷◌ "4" rest))
        (after_prefix "549" (String.◌∷◌ "5" (String.◌∷◌ "4" rest)))
      ≡ String.◌∷◌ "5" (String.◌∷◌ "4" rest)
unfolding is_digits_to_end after_prefix
unchanged String.[] digits = refl
unchanged (String.◌∷◌ c s) digits = elim (Bool-cases (57 == code c)) [
  | inl nine ↦ rw nine (rw (not_one_more 9 s (digits_behind 9 c s digits)) refl)
  | inr other ↦ rw other refl
]

shortened :
    (rest : String)
    → is_digits_to_end 10 rest ≡ true
    → without_nine (str_append "54" rest) (after_prefix "549" (str_append "54" rest))
      ≡ str_append "54" rest
shortened rest digits = rw (prefix_54 rest) (unchanged rest digits)

-- Only "549" and ten digits are rewritten, to "54" and the ten digits, so that a second pass finds
-- nothing to do.
normalize_phone-twice :
    (phone : String) → normalize_phone (normalize_phone phone) ≡ normalize_phone phone
unfolding normalize_phone
normalize_phone-twice phone = elim (Option-cases (after_prefix "549" phone)) [
  | inl e ↦ rw e (rw e refl)
  | inr (rest, e) ↦ elim (Bool-cases (is_digits_to_end 10 rest)) [
    | inl digits ↦ rw e (rw digits (shortened rest digits))
    | inr others ↦ rw e (rw others (rw e (rw others refl)))
  ]
]
