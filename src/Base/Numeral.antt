-- ===== src/Base/Numeral.antt =====
-- `str(n)` of a natural number, and Python's `int(s)`. ASCII digits only: Python also takes the
-- decimal digits of other scripts.
pub mod Laws
use Prim.Native.Nat.{ℕ, zero, suc, ◌+◌, ◌-◌, ◌*◌, ◌/◌, ◌%◌}
use Prim.Native.Char.{Char, code}
use Prim.Native.String.{String}
use mathlib.Core.Bool.{Bool, false, ◌&&◌, ◌||◌}
use mathlib.Core.Option.{Option, none, some}
use mathlib.Core.Option
use mathlib.Core.Path.{◌≡◌, refl}
use whatsapp_commerce_bot.Base.Tests.{ltb, leb, ◌==◌, if◌then◌else◌}
use whatsapp_commerce_bot.Base.Int.{ℤ, pos, sub_ℕ}
use whatsapp_commerce_bot.Base.Text.{strip}

unfoldable pub digit : ℕ → Char
digit zero = "0"
digit (suc zero) = "1"
digit (suc (suc zero)) = "2"
digit (suc (suc (suc zero))) = "3"
digit (suc (suc (suc (suc zero)))) = "4"
digit (suc (suc (suc (suc (suc zero))))) = "5"
digit (suc (suc (suc (suc (suc (suc zero)))))) = "6"
digit (suc (suc (suc (suc (suc (suc (suc zero))))))) = "7"
digit (suc (suc (suc (suc (suc (suc (suc (suc zero)))))))) = "8"
digit (suc (suc (suc (suc (suc (suc (suc (suc (suc n))))))))) = "9"

-- The digits of `n` in front of `tail`; the fuel bounds their number.
unfoldable pub decimal_onto : ℕ → ℕ → String → String
unfolding digit
decimal_onto zero n tail = tail
decimal_onto (suc fuel) n tail =
    let more = decimal_onto fuel (n / 10) (String.◌∷◌ (digit (n % 10)) tail) in
    if ltb n 10 then String.◌∷◌ (digit n) tail else more

unfoldable pub decimal : ℕ → String
unfolding decimal_onto
decimal n = decimal_onto (suc n) n ""

unfoldable pub is_digit : ℕ → Bool
is_digit c = leb 48 c && leb c 57

-- Digits with single underscores between them; `after_digit` says that one stands before.
unfoldable pub read_digits : Bool → ℕ → String → Option ℕ
unfolding is_digit
read_digits after_digit acc String.[] = if after_digit then some acc else none
read_digits after_digit acc (String.◌∷◌ c s) =
    let d = is_digit (code c) in
    let rest = read_digits d (if d then acc * 10 + (code c - 48) else acc) s in
    if d || (after_digit && (code c == 95)) then rest else none

unfoldable pub read_signed : String → Option ℤ
unfolding read_digits
read_signed String.[] = none
read_signed (String.◌∷◌ c s) =
    if code c == 45
    then Option.map (λ n. sub_ℕ 0 n) (read_digits false 0 s)
    else if code c == 43
    then Option.map pos (read_digits false 0 s)
    else Option.map pos (read_digits false 0 (String.◌∷◌ c s))

-- `int(s)`; `none` is its ValueError.
unfoldable pub int : String → Option ℤ
unfolding strip read_signed
int s = read_signed (strip s)

int_test : int " -1_0 " ≡ some (sub_ℕ 0 10)
unfolding int
int_test = refl
