-- ===== src/Base/Text/Laws.antt =====
-- Laws of prefixes and of the equality of texts.
use Prim.Native.Char.{Char}
use Prim.Native.String.{String, ◌++◌}
use mathlib.Core.Path.{sym, ◌≡◌, ap, ◌∙◌}
use mathlib.Core.Logic.{inl, inr}
use mathlib.Core.Bool.{true, false}
use text.Mathlib.TextEquality.{eq_iff}
use mathlib.Core.Option.{Option, none, some}
use native.Mathlib.Omega.{arith}
use text.Mathlib.TextLemmas.{nil-append, cons-append}
use whatsapp_commerce_bot.Base.Text.{after_prefix}
use whatsapp_commerce_bot.Base.Tests.{str_eq, Bool-cases}

after_prefix-cons :
    (c : Char) (p s : String) → after_prefix (String.◌∷◌ c p) (String.◌∷◌ c s) ≡ after_prefix p s
unfolding after_prefix
after_prefix-cons c p s = ground arith

pub after_prefix-append : (p s : String) → after_prefix p (p ++ s) ≡ some s
unfolding after_prefix
after_prefix-append String.[] s = ap (after_prefix "") (nil-append s)
after_prefix-append (String.◌∷◌ c p) s =
    ap (after_prefix (String.◌∷◌ c p)) (cons-append c p s)
    ∙ after_prefix-cons c p (p ++ s)
    ∙ after_prefix-append p s

pub sym_false : (k l : String) → str_eq k l ≡ false → str_eq l k ≡ false
sym_false k l away = elim (Bool-cases (str_eq l k)) [
  | inl same ↦ let here = (eq_iff k l).1 (sym ((eq_iff l k).0 same)) in cc
  | inr different ↦ different
]

-- A text that equals one of two texts that differ does not equal the other.
pub other_label :
    (k l label : String) → str_eq k label ≡ true → str_eq k l ≡ false → str_eq l label ≡ false
other_label k l label at away = elim (Bool-cases (str_eq l label)) [
  | inl same ↦ absurd_of ((eq_iff k label).0 at ∙ sym ((eq_iff l label).0 same))
  | inr different ↦ different
]
  where
    absurd_of : k ≡ l → str_eq l label ≡ false
    absurd_of e = let yes' = (eq_iff k l).1 e in cc

pub str_eq_trans : (a b c : String) → str_eq a b ≡ true → str_eq a c ≡ str_eq b c
str_eq_trans a b c e = ap (λ s. str_eq s c) ((eq_iff a b).0 e)

-- Two texts behind one prefix.
pub str_eq-append : (p a b : String) → str_eq (p ++ a) (p ++ b) ≡ str_eq a b
str_eq-append p a b = elim (Bool-cases (str_eq (p ++ a) (p ++ b))) [
  | inl same ↦ same ∙ sym ((eq_iff a b).1 (behind ((eq_iff (p ++ a) (p ++ b)).0 same)))
  | inr different ↦ elim (Bool-cases (str_eq a b)) [
    | inl here ↦ absurd_of different (ap (λ s. p ++ s) ((eq_iff a b).0 here))
    | inr apart ↦ different ∙ sym apart
  ]
]
  where
    text_of : Option String → String
    text_of none = ""
    text_of (some s) = s

    behind : p ++ a ≡ p ++ b → a ≡ b
    behind e =
        ap text_of (sym (after_prefix-append p a) ∙ ap (after_prefix p) e ∙ after_prefix-append p b)

    absurd_of :
        str_eq (p ++ a) (p ++ b) ≡ false → p ++ a ≡ p ++ b → str_eq (p ++ a) (p ++ b) ≡ str_eq a b
    absurd_of differ e = let yes' = (eq_iff (p ++ a) (p ++ b)).1 e in cc
