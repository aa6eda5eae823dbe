-- ===== src/Portal/Password.antt =====
-- portal/session.py: passwords. PBKDF2 is an argument: of the password, the salt's bytes and the
-- number of iterations. It raises where that number is below one, which no stored hash has.
pub mod Laws
use Prim.Native.Char.{Char, code}
use Prim.Native.String.{◌++◌ as str_append}
use whatsapp_commerce_bot.Base.{
  ℕ, ◌+◌, ◌-◌, ◌*◌, ◌/◌, ◌%◌, String, Bool, false, ◌&&◌, ◌||◌, Option, none, some, List, [], ◌∷◌,
  leb, ◌==◌, str_eq, if◌then◌else◌,
}
use whatsapp_commerce_bot.Base.Int.{ℤ, pos}
use whatsapp_commerce_bot.Base.Numeral.{decimal, int}
use whatsapp_commerce_bot.Portal.Cookie.{split_at}

-- `bytes.hex` and `bytes.fromhex`, which skips white space between the bytes.
unfoldable pub hex_digit : ℕ → Char
hex_digit d =
    if d == 0
    then "0"
    else if d == 1
    then "1"
    else if d == 2
    then "2"
    else if d == 3
    then "3"
    else if d == 4
    then "4"
    else if d == 5
    then "5"
    else if d == 6
    then "6"
    else if d == 7
    then "7"
    else if d == 8
    then "8"
    else if d == 9
    then "9"
    else if d == 10
    then "a"
    else if d == 11
    then "b"
    else if d == 12
    then "c"
    else if d == 13
    then "d"
    else if d == 14
    then "e"
    else "f"

unfoldable pub to_hex : List ℕ → String
unfolding hex_digit
to_hex [] = ""
to_hex (b ∷ bs) = String.◌∷◌ (hex_digit (b / 16)) (String.◌∷◌ (hex_digit (b % 16)) (to_hex bs))

unfoldable pub hex_value : ℕ → Option ℕ
hex_value c =
    if leb 48 c && leb c 57
    then some (c - 48)
    else if leb 97 c && leb c 102
    then some (c - 87)
    else if leb 65 c && leb c 70
    then some (c - 55)
    else none

abbrev is_gap : ℕ → Bool
is_gap c = (leb 9 c && leb c 13) || (c == 32)

abbrev byte_of : Option ℕ → Option ℕ → Option ℕ
byte_of (some a) (some b) = some (a * 16 + b)
byte_of (some a) none = none
byte_of none b = none

abbrev in_front : Option ℕ → Option (List ℕ) → Option (List ℕ)
in_front (some b) (some bs) = some (b ∷ bs)
in_front (some b) none = none
in_front none bs = none

unfoldable pub from_hex : String → Option (List ℕ)
unfolding hex_value
from_hex String.[] = some []
from_hex (String.◌∷◌ c String.[]) = if is_gap (code c) then some [] else none
from_hex (String.◌∷◌ c (String.◌∷◌ d s)) =
    let skipped = from_hex (String.◌∷◌ d s) in
    let rest = from_hex s in
    if is_gap (code c)
    then skipped
    else in_front (byte_of (hex_value (code c)) (hex_value (code d))) rest

unfoldable pub bytes_eq : List ℕ → List ℕ → Bool
bytes_eq [] [] = Bool.true
bytes_eq (a ∷ s) (b ∷ t) = (a == b) && bytes_eq s t
bytes_eq s t = false

-- _PBKDF2_ITERATIONS
abbrev pub pbkdf2_iterations : ℕ
pbkdf2_iterations = 260000

module _ (pbkdf2 : String → List ℕ → ℤ → List ℕ) where
  -- `hash_password`, with the salt that `os.urandom` gives.
  unfoldable pub hash_password : List ℕ → String → String
  hash_password salt password = str_append "pbkdf2_sha256$" (
      str_append (decimal pbkdf2_iterations) (
        str_append "$" (
          str_append (to_hex salt)
            (str_append "$" (to_hex (pbkdf2 password salt (pos pbkdf2_iterations)))))))

  abbrev pub compare_hash : String → Option ℤ → Option (List ℕ) → Option (List ℕ) → Bool
  compare_hash password (some n) (some salt) (some expected) =
      bytes_eq (pbkdf2 password salt n) expected
  compare_hash password (some n) (some salt) none = false
  compare_hash password (some n) none expected = false
  compare_hash password none salt expected = false

  unfoldable pub check_hash : String → List String → Bool
  check_hash password (algorithm ∷ count ∷ salt ∷ digest ∷ []) =
      str_eq algorithm "pbkdf2_sha256"
      && compare_hash password (int count) (from_hex salt) (from_hex digest)
  check_hash password (a ∷ b ∷ c ∷ d ∷ e ∷ r) = false
  check_hash password (a ∷ b ∷ c ∷ []) = false
  check_hash password (a ∷ b ∷ []) = false
  check_hash password (a ∷ []) = false
  check_hash password [] = false

  -- `verify_password`; an empty hash has no four parts.
  unfoldable pub verify_password : String → Option String → Bool
  verify_password password none = false
  verify_password password (some password_hash) = check_hash password (split_at 36 password_hash)
