-- ===== src/Portal/Cookie.antt =====
-- portal/session.py: the signed cookie of a merchant's session. The HMAC under
-- PORTAL_SESSION_SECRET, in hexadecimal digits, is an argument.

pub mod Laws
use Prim.Native.Char.{Char, code}
use Prim.Native.String.{◌++◌ as str_append}
use whatsapp_commerce_bot.Base.{
  ℕ, ◌+◌, String, Bool, true, ◌&&◌, Option, none, some, List, [], ◌∷◌, ltb, ◌==◌, str_eq,
  if◌then◌else◌,
}
use whatsapp_commerce_bot.Base.Int.{ℤ, pos, ltb_ℤ}
use whatsapp_commerce_bot.Base.Numeral.{decimal, int}

-- SESSION_TTL_SECONDS
abbrev pub session_ttl : ℕ
session_ttl = 86400

-- `s.rpartition(".")`, if there is a point.
unfoldable pub rpartition : String → Option (String × String)
rpartition String.[] = none
rpartition (String.◌∷◌ c s) = elim (rpartition s) [
  | some (before, after) ↦ some (String.◌∷◌ c before, after)
  | none ↦ if code c == 46 then some ("", s) else none
]

-- `s.split(sep)` at a one-character separator.
abbrev pub onto_first : Char → List String → List String
onto_first c [] = []
onto_first c (s ∷ ss) = String.◌∷◌ c s ∷ ss

unfoldable pub split_at : ℕ → String → List String
split_at sep String.[] = "" ∷ []
split_at sep (String.◌∷◌ c s) =
    let rest = split_at sep s in if code c == sep then "" ∷ rest else onto_first c rest

unfoldable pub is_ascii : String → Bool
is_ascii String.[] = true
is_ascii (String.◌∷◌ c s) = ltb (code c) 128 && is_ascii s

-- The two numbers of a payload; `none` is a ValueError.
abbrev pair_of : Option ℤ → Option ℤ → Option (ℤ × ℤ)
pair_of (some a) (some b) = some (a, b)
pair_of (some a) none = none
pair_of none b = none

unfoldable pub read_payload : List String → Option (ℤ × ℤ)
read_payload (a ∷ b ∷ []) = pair_of (int a) (int b)
read_payload (a ∷ b ∷ c ∷ r) = none
read_payload (a ∷ []) = none
read_payload [] = none

-- A signature that is not ASCII makes `compare_digest` raise TypeError.
pub data Verified : Type 0 where
  nobody : Verified
  tenant_id : ℤ → Verified
  type_error : Verified

-- The claims of a payload at a time.
unfoldable pub current : ℕ → Option (ℤ × ℤ) → Verified
current now none = nobody
current now (some (id, expiry)) = if ltb_ℤ expiry (pos now) then nobody else tenant_id id

-- The payload of `create_session_cookie`.
unfoldable pub cookie_payload : ℕ → ℕ → String
cookie_payload now id = str_append (decimal id) (str_append ":" (decimal (now + session_ttl)))

module _ (sign : String → String) where
  unfoldable pub create_session_cookie : ℕ → ℕ → String
  unfolding cookie_payload
  create_session_cookie now id =
      str_append (cookie_payload now id) (str_append "." (sign (cookie_payload now id)))

  abbrev pub signed_payload : ℕ → String → String → Verified
  signed_payload now payload signature =
      if is_ascii signature
      then (if str_eq (sign payload) signature
          then current now (read_payload (split_at 58 payload))
          else nobody)
      else type_error

  abbrev pub parted : ℕ → Option (String × String) → Verified
  parted now none = nobody
  parted now (some (payload, signature)) = signed_payload now payload signature

  -- `verify_session_cookie`; the cookie "" has no point either.
  unfoldable pub verify_session_cookie : ℕ → Option String → Verified
  verify_session_cookie now none = nobody
  verify_session_cookie now (some cookie) = parted now (rpartition cookie)
