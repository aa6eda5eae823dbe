-- ===== src/Base/Numeral/Laws.antt =====
-- `int` reads back what `str` writes of a natural number.
use Prim.Native.Nat.{ℕ, zero, suc, ◌+◌, ◌-◌, ◌*◌, ◌/◌, ◌%◌, ◌<◌}
use Prim.Native.Char.{Char, code}
use Prim.Native.String.{String}
use mathlib.Core.Path.{◌≡◌, refl, ap, ◌∙◌, subst, sym}
use mathlib.Core.Logic.{inl, inr}
use mathlib.Core.Bool.{Bool, true, false}
use mathlib.Core.Option.{some}
use native.Mathlib.Omega.{arith}
use whatsapp_commerce_bot.Base.Tests.{ltb, ◌==◌, Bool-cases}
use whatsapp_commerce_bot.Base.Int.{pos}
use whatsapp_commerce_bot.Base.Text.{strip, lstrip, rstrip, is_space, keep_char}
use whatsapp_commerce_bot.Base.Numeral.{
  digit, decimal_onto, decimal, is_digit, read_digits, read_signed, int,
}

pub code-digit : (d : ℕ) → d < 10 → code (digit d) ≡ 48 + d
unfolding digit
code-digit zero h = refl
code-digit (suc zero) h = refl
code-digit (suc (suc zero)) h = refl
code-digit (suc (suc (suc zero))) h = refl
code-digit (suc (suc (suc (suc zero)))) h = refl
code-digit (suc (suc (suc (suc (suc zero))))) h = refl
code-digit (suc (suc (suc (suc (suc (suc zero)))))) h = refl
code-digit (suc (suc (suc (suc (suc (suc (suc zero))))))) h = refl
code-digit (suc (suc (suc (suc (suc (suc (suc (suc zero)))))))) h = refl
code-digit (suc (suc (suc (suc (suc (suc (suc (suc (suc zero))))))))) h = refl
code-digit (suc (suc (suc (suc (suc (suc (suc (suc (suc (suc n)))))))))) h = absurd (omega arith)

-- Every character of the text is a digit.
abbrev pub AllDigits : String → Type 0
AllDigits String.[] = Unit
AllDigits (String.◌∷◌ c s) = (is_digit (code c) ≡ true) × AllDigits s

is_digit-digit : (d : ℕ) → d < 10 → is_digit (code (digit d)) ≡ true
unfolding is_digit
is_digit-digit d h = ground (arith, code-digit d h)

decimal_onto_short :
    (f n : ℕ) (tail : String)
    → ltb n 10 ≡ true
    → decimal_onto (suc f) n tail ≡ String.◌∷◌ (digit n) tail
unfolding decimal_onto
decimal_onto_short f n tail e = rw e

decimal_onto_long :
    (f n : ℕ) (tail : String)
    → ltb n 10 ≡ false
    → decimal_onto (suc f) n tail ≡ decimal_onto f (n / 10) (String.◌∷◌ (digit (n % 10)) tail)
unfolding decimal_onto
decimal_onto_long f n tail e = rw e

decimal_onto-AllDigits :
    (fuel n : ℕ) (tail : String) → AllDigits tail → AllDigits (decimal_onto fuel n tail)
unfolding decimal_onto
decimal_onto-AllDigits zero n tail h = h
decimal_onto-AllDigits (suc f) n tail h = elim (Bool-cases (ltb n 10)) [
  | inl small ↦
      subst AllDigits (sym (decimal_onto_short f n tail small)) (is_digit-digit n (ground arith), h)
  | inr large ↦ subst AllDigits (sym (decimal_onto_long f n tail large)) (
      decimal_onto-AllDigits f (n / 10) (String.◌∷◌ (digit (n % 10)) tail)
        (is_digit-digit (n % 10) (omega arith), h))
]

-- One digit read.
read_digits-cons :
    (b : Bool) (acc : ℕ) (c : Char) (s : String)
    → is_digit (code c) ≡ true
    → read_digits b acc (String.◌∷◌ c s) ≡ read_digits true (acc * 10 + (code c - 48)) s
unfolding read_digits
read_digits-cons b acc c s h = rw h

read_digits-digit :
    (b : Bool) (acc d : ℕ) (tail : String)
    → d < 10
    → read_digits b acc (String.◌∷◌ (digit d) tail) ≡ read_digits true (acc * 10 + d) tail
read_digits-digit b acc d tail h =
    read_digits-cons b acc (digit d) tail (is_digit-digit d h)
    ∙ ap (λ k. read_digits true k tail) (omega (arith, code-digit d h))

-- Reading the digits of a number in front of a tail leaves the number as what was read so far.
read_digits-decimal_onto :
    (fuel n : ℕ) (b : Bool) (tail : String)
    → n < fuel
    → read_digits b 0 (decimal_onto fuel n tail) ≡ read_digits true n tail
read_digits-decimal_onto zero n b tail h = absurd (omega arith)
read_digits-decimal_onto (suc f) n b tail h = elim (Bool-cases (ltb n 10)) [
  | inl small ↦ rw (decimal_onto_short f n tail small) (
      read_digits-digit b 0 n tail (ground arith) ∙ ap (λ k. read_digits true k tail) (omega arith))
  | inr large ↦ rw (decimal_onto_long f n tail large) (
      read_digits-decimal_onto f (n / 10) b (String.◌∷◌ (digit (n % 10)) tail) (ground arith)
      ∙ read_digits-digit true (n / 10) (n % 10) tail (omega arith)
      ∙ ap (λ k. read_digits true k tail) (omega arith))
]

digit_not_space : (c : ℕ) → is_digit c ≡ true → is_space c ≡ false
unfolding is_digit is_space
digit_not_space c h = ground arith

lstrip-digits : (s : String) → AllDigits s → lstrip s ≡ s
unfolding lstrip
lstrip-digits String.[] h = refl
lstrip-digits (String.◌∷◌ c s) h = rw (digit_not_space (code c) h.0)

keep_digit : (c : Char) (s : String) → is_digit (code c) ≡ true → keep_char c s ≡ String.◌∷◌ c s
keep_digit c String.[] h = rw (digit_not_space (code c) h)
keep_digit c (String.◌∷◌ d s) h = refl

rstrip-digits : (s : String) → AllDigits s → rstrip s ≡ s
unfolding rstrip
rstrip-digits String.[] h = refl
rstrip-digits (String.◌∷◌ c s) h = ap (keep_char c) (rstrip-digits s h.1) ∙ keep_digit c s h.0

no_sign : (c : ℕ) → is_digit c ≡ true → ((c == 45) ≡ false) × ((c == 43) ≡ false)
unfolding is_digit
no_sign c h = (ground arith, ground arith)

none_read : {n : ℕ} → ¬ (read_digits false 0 "" ≡ some n)
unfolding read_digits
none_read e = cc

read_end : (n : ℕ) → read_digits true n "" ≡ some n
unfolding read_digits
read_end n = refl

-- A digit is no sign.
read_signed-digits :
    (s : String) (n : ℕ)
    → AllDigits s
    → read_digits false 0 s ≡ some n
    → read_signed s ≡ some (pos n)
unfolding read_signed
read_signed-digits String.[] n h e = absurd (none_read e)
read_signed-digits (String.◌∷◌ c s) n h e =
    let signs = no_sign (code c) h.0 in rw signs.0 (rw signs.1 (rw e))

-- `int(str(n))` is `n`.
pub int-decimal : (n : ℕ) → int (decimal n) ≡ some (pos n)
unfolding int strip decimal
int-decimal n =
    let s = decimal_onto (suc n) n "" in
    let digits : AllDigits s = decimal_onto-AllDigits (suc n) n "" tt in
    ap read_signed (ap rstrip (lstrip-digits s digits) ∙ rstrip-digits s digits)
    ∙ read_signed-digits s n digits
        (read_digits-decimal_onto (suc n) n false "" (omega arith) ∙ read_end n)

pub decimal-AllDigits : (n : ℕ) → AllDigits (decimal n)
unfolding decimal
decimal-AllDigits n = decimal_onto-AllDigits (suc n) n "" tt
