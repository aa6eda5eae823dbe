-- ===== src/Portal/Cookie/Laws.antt =====
-- The session cookie of portal/session.py, made and read back.
use Prim.Native.Char.{Char, code}
use Prim.Native.String.{◌++◌ as str_append}
use text.Mathlib.TextLemmas.{nil-append, cons-append}
use whatsapp_commerce_bot.Base.{
  ℕ, ◌+◌, ◌≡◌, refl, ap, ap₂, ◌∙◌, String, Bool, true, false, ◌&&◌, ◌||◌, none, some, [], ◌∷◌,
  arith, leb, ltb, ◌==◌, str_eq, eq_iff, if◌then◌else◌,
}
use whatsapp_commerce_bot.Base.Int.{pos}
use whatsapp_commerce_bot.Base.Numeral.{decimal, is_digit}
use whatsapp_commerce_bot.Base.Numeral.Laws.{AllDigits, decimal-AllDigits, int-decimal}
use whatsapp_commerce_bot.Portal.Cookie.{
  session_ttl, rpartition, onto_first, split_at, is_ascii, pair_of, read_payload, nobody, tenant_id,
  current, cookie_payload, create_session_cookie, signed_payload, parted, verify_session_cookie,
}

pub str_eq_self : (s : String) → str_eq s s ≡ true
str_eq_self s = (eq_iff s s).1 refl

abbrev pub is_hex_digit : ℕ → Bool
is_hex_digit c = (leb 48 c && leb c 57) || (leb 97 c && leb c 102)

-- What `hexdigest` returns.
abbrev pub IsHex : String → Type 0
IsHex String.[] = Unit
IsHex (String.◌∷◌ c s) = (is_hex_digit (code c) ≡ true) × IsHex s

no_point : (c : ℕ) → is_hex_digit c ≡ true → (c == 46) ≡ false
no_point c h = ground arith

hex_ascii : (c : ℕ) → is_hex_digit c ≡ true → ltb c 128 ≡ true
hex_ascii c h = ground arith

rpartition-hex : (s : String) → IsHex s → rpartition s ≡ none
unfolding rpartition
rpartition-hex String.[] h = refl
rpartition-hex (String.◌∷◌ c s) (h, hs) = rw (rpartition-hex s hs, no_point (code c) h) refl

is_ascii-hex : (s : String) → IsHex s → is_ascii s ≡ true
unfolding is_ascii
is_ascii-hex String.[] h = refl
is_ascii-hex (String.◌∷◌ c s) (h, hs) = rw (hex_ascii (code c) h, is_ascii-hex s hs) refl

rpartition-cons :
    (c : Char) (s before after : String)
    → rpartition s ≡ some (before, after)
    → rpartition (String.◌∷◌ c s) ≡ some (String.◌∷◌ c before, after)
unfolding rpartition
rpartition-cons c s before after e = rw e refl

rpartition-point : (s : String) → IsHex s → rpartition (String.◌∷◌ "." s) ≡ some ("", s)
unfolding rpartition
rpartition-point s h = rw (rpartition-hex s h) refl

rpartition-append :
    (p s : String) → IsHex s → rpartition (str_append p (String.◌∷◌ "." s)) ≡ some (p, s)
rpartition-append String.[] s h =
    ap rpartition (nil-append (String.◌∷◌ "." s)) ∙ rpartition-point s h
rpartition-append (String.◌∷◌ c p) s h =
    ap rpartition (cons-append c p (String.◌∷◌ "." s))
    ∙ rpartition-cons c _ p s (rpartition-append p s h)

digit_no_colon : (c : ℕ) → is_digit c ≡ true → (c == 58) ≡ false
unfolding is_digit
digit_no_colon c h = ground arith

split_at-cons :
    (c : Char) (s : String)
    → (code c == 58) ≡ false
    → split_at 58 (String.◌∷◌ c s) ≡ onto_first c (split_at 58 s)
unfolding split_at
split_at-cons c s h = rw h refl

split_at-colon : (s : String) → split_at 58 (String.◌∷◌ ":" s) ≡ "" ∷ split_at 58 s
unfolding split_at
split_at-colon s = refl

split_at-nil : split_at 58 "" ≡ "" ∷ []
unfolding split_at
split_at-nil = refl

split_at-digits : (s : String) → AllDigits s → split_at 58 s ≡ s ∷ []
split_at-digits String.[] h = split_at-nil
split_at-digits (String.◌∷◌ c s) (h, hs) =
    split_at-cons c s (digit_no_colon (code c) h) ∙ ap (onto_first c) (split_at-digits s hs)

split_at-append :
    (s tail : String)
    → AllDigits s
    → split_at 58 (str_append s (String.◌∷◌ ":" tail)) ≡ s ∷ split_at 58 tail
split_at-append String.[] tail h =
    ap (split_at 58) (nil-append (String.◌∷◌ ":" tail)) ∙ split_at-colon tail
split_at-append (String.◌∷◌ c s) tail (h, hs) =
    ap (split_at 58) (cons-append c s (String.◌∷◌ ":" tail))
    ∙ split_at-cons c _ (digit_no_colon (code c) h)
    ∙ ap (onto_first c) (split_at-append s tail hs)

one_char : (c : Char) (s : String) → str_append (String.◌∷◌ c "") s ≡ String.◌∷◌ c s
one_char c s = cons-append c "" s ∙ ap (String.◌∷◌ c) (nil-append s)

-- The payload's two numbers.
read_payload_lem :
    (now id : ℕ)
    → read_payload (split_at 58 (cookie_payload now id)) ≡ some (pos id, pos (now + session_ttl))
unfolding cookie_payload read_payload
read_payload_lem now id =
    ap read_payload (
      ap (λ s. split_at 58 (str_append (decimal id) s)) (one_char ":" (decimal (now + session_ttl)))
      ∙ split_at-append (decimal id) _ (decimal-AllDigits id)
      ∙ ap (λ l. decimal id ∷ l) (split_at-digits _ (decimal-AllDigits (now + session_ttl))))
    ∙ ap₂ pair_of (int-decimal id) (int-decimal (now + session_ttl))

module _ (sign : String → String) (hexadecimal : (s : String) → IsHex (sign s)) where
  accepted :
      (later : ℕ) (p : String)
      → signed_payload sign later p (sign p) ≡ current later (read_payload (split_at 58 p))
  accepted later p = rw (is_ascii-hex (sign p) (hexadecimal p)) (rw (str_eq_self (sign p)) refl)

  -- A cookie that a login made is good for that tenant until SESSION_TTL_SECONDS have passed, and for
  -- nobody from then on.
  pub verify-create_session_cookie :
      (now later id : ℕ)
      → verify_session_cookie sign later (some (create_session_cookie sign now id))
        ≡ (if ltb (now + session_ttl) later then nobody else tenant_id (pos id))
  unfolding verify_session_cookie create_session_cookie current
  verify-create_session_cookie now later id =
      let p = cookie_payload now id in
      ap (λ s. parted sign later (rpartition (str_append p s))) (one_char "." (sign p))
      ∙ ap (parted sign later) (rpartition-append p (sign p) (hexadecimal p))
      ∙ accepted later p
      ∙ ap (current later) (read_payload_lem now id)
      ∙ ground arith
