-- ===== src/Portal/Password/Laws.antt =====
-- A password that was hashed, in portal/session.py.
use Prim.Native.Char.{Char, code}
use Prim.Native.String.{◌++◌ as str_append}
use Prim.Native.Nat.{◌/◌, ◌%◌}
use text.Mathlib.TextLemmas.{nil-append, cons-append, append_assoc}
use whatsapp_commerce_bot.Base.{
  ℕ, zero, suc, ◌+◌, ◌*◌, ◌<◌, ◌≡◌, refl, ap, ◌∙◌, String, true, false, some, List, [], ◌∷◌, arith,
  All, ltb, ◌==◌, if◌then◌else◌,
}
use whatsapp_commerce_bot.Base.Int.{ℤ, pos}
use whatsapp_commerce_bot.Base.Numeral.{decimal, is_digit}
use whatsapp_commerce_bot.Base.Numeral.Laws.{AllDigits, int-decimal, decimal-AllDigits}
use whatsapp_commerce_bot.Portal.Cookie.{split_at, onto_first}
use whatsapp_commerce_bot.Portal.Password.{
  hex_digit, to_hex, hex_value, is_gap, from_hex, bytes_eq, pbkdf2_iterations, hash_password,
  check_hash, verify_password,
}

code-hex_digit : (d : ℕ) → d < 16 → code (hex_digit d) ≡ (if ltb d 10 then 48 + d else 87 + d)
unfolding hex_digit
code-hex_digit zero h = refl
code-hex_digit (suc zero) h = refl
code-hex_digit (suc (suc zero)) h = refl
code-hex_digit (suc (suc (suc zero))) h = refl
code-hex_digit (suc (suc (suc (suc zero)))) h = refl
code-hex_digit (suc (suc (suc (suc (suc zero))))) h = refl
code-hex_digit (suc (suc (suc (suc (suc (suc zero)))))) h = refl
code-hex_digit (suc (suc (suc (suc (suc (suc (suc zero))))))) h = refl
code-hex_digit (suc (suc (suc (suc (suc (suc (suc (suc zero)))))))) h = refl
code-hex_digit (suc (suc (suc (suc (suc (suc (suc (suc (suc zero))))))))) h = refl
code-hex_digit (suc (suc (suc (suc (suc (suc (suc (suc (suc (suc zero)))))))))) h = refl
code-hex_digit (suc (suc (suc (suc (suc (suc (suc (suc (suc (suc (suc zero))))))))))) h = refl
code-hex_digit (suc (suc (suc (suc (suc (suc (suc (suc (suc (suc (suc (suc zero)))))))))))) h = refl
code-hex_digit (suc (suc (suc (suc (suc (suc (suc (suc (suc (suc (suc (suc (suc zero)))))))))))))
      h =
    refl
code-hex_digit
      (suc (suc (suc (suc (suc (suc (suc (suc (suc (suc (suc (suc (suc (suc zero)))))))))))))) h =
    refl
code-hex_digit
      (suc (suc (suc (suc (suc (suc (suc (suc (suc (suc (suc (suc (suc (suc (suc zero)))))))))))))))
      h =
    refl
code-hex_digit
      (suc
        (suc (suc (suc (suc (suc (suc (suc (suc (suc (suc (suc (suc (suc (suc (suc n))))))))))))))))
      h =
    absurd (omega arith)

hex_value-hex_digit : (d : ℕ) → d < 16 → hex_value (code (hex_digit d)) ≡ some d
unfolding hex_value
hex_value-hex_digit d h = rw (code-hex_digit d h) (ground arith)

is_gap-hex_digit : (d : ℕ) → d < 16 → is_gap (code (hex_digit d)) ≡ false
is_gap-hex_digit d h = rw (code-hex_digit d h) (ground arith)

no_dollar-hex_digit : (d : ℕ) → d < 16 → (code (hex_digit d) == 36) ≡ false
no_dollar-hex_digit d h = rw (code-hex_digit d h) (ground arith)

abbrev pub IsByte : ℕ → Type 0
IsByte b = b < 256

high : (b : ℕ) → b < 256 → b / 16 < 16
high b h = omega arith

low : (b : ℕ) → b % 16 < 16
low b = omega arith

halves : (b : ℕ) → (b / 16) * 16 + b % 16 ≡ b
halves b = omega arith

from_hex-to_hex : (bs : List ℕ) → All IsByte bs → from_hex (to_hex bs) ≡ some bs
unfolding from_hex to_hex
from_hex-to_hex [] h = refl
from_hex-to_hex (b ∷ bs) (h, hs) =
    rw
      (
        is_gap-hex_digit (b / 16) (high b h),
        hex_value-hex_digit (b / 16) (high b h),
        hex_value-hex_digit (b % 16) (low b),
        from_hex-to_hex bs hs,
      )
      (ap (λ x. some (x ∷ bs)) (halves b))

-- A text without the separator is one part.
abbrev NoDollar : String → Type 0
NoDollar String.[] = Unit
NoDollar (String.◌∷◌ c s) = ((code c == 36) ≡ false) × NoDollar s

to_hex-NoDollar : (bs : List ℕ) → All IsByte bs → NoDollar (to_hex bs)
unfolding to_hex
to_hex-NoDollar [] h = tt
to_hex-NoDollar (b ∷ bs) (h, hs) = (
  no_dollar-hex_digit (b / 16) (high b h),
  (no_dollar-hex_digit (b % 16) (low b), to_hex-NoDollar bs hs),
)

digits-NoDollar : (s : String) → AllDigits s → NoDollar s
unfolding is_digit
digits-NoDollar String.[] h = tt
digits-NoDollar (String.◌∷◌ c s) (h, hs) = (ground arith, digits-NoDollar s hs)

split_at-last : (s : String) → NoDollar s → split_at 36 s ≡ s ∷ []
unfolding split_at
split_at-last String.[] h = refl
split_at-last (String.◌∷◌ c s) (h, hs) = rw (h, split_at-last s hs) refl

split_at-cons :
    (c : Char) (s : String)
    → (code c == 36) ≡ false
    → split_at 36 (String.◌∷◌ c s) ≡ onto_first c (split_at 36 s)
unfolding split_at
split_at-cons c s h = rw h refl

split_at-dollar : (s : String) → split_at 36 (String.◌∷◌ "$" s) ≡ "" ∷ split_at 36 s
unfolding split_at
split_at-dollar s = refl

split_at-part :
    (s tail : String)
    → NoDollar s
    → split_at 36 (str_append s (String.◌∷◌ "$" tail)) ≡ s ∷ split_at 36 tail
split_at-part String.[] tail h =
    ap (split_at 36) (nil-append (String.◌∷◌ "$" tail)) ∙ split_at-dollar tail
split_at-part (String.◌∷◌ c s) tail (h, hs) =
    ap (split_at 36) (cons-append c s (String.◌∷◌ "$" tail))
    ∙ split_at-cons c _ h
    ∙ ap (onto_first c) (split_at-part s tail hs)

dollar : (s : String) → str_append "$" s ≡ String.◌∷◌ "$" s
dollar s = cons-append "$" "" s ∙ ap (String.◌∷◌ "$") (nil-append s)

-- A part, the separator and what follows.
parted :
    (s tail : String)
    → NoDollar s
    → split_at 36 (str_append s (str_append "$" tail)) ≡ s ∷ split_at 36 tail
parted s tail h = ap (λ x. split_at 36 (str_append s x)) (dollar tail) ∙ split_at-part s tail h

algorithm-NoDollar : NoDollar "pbkdf2_sha256"
algorithm-NoDollar = (
  refl,
  (
    refl,
    (refl, (refl, (refl, (refl, (refl, (refl, (refl, (refl, (refl, (refl, (refl, tt))))))))))),
  ),
)

bytes_eq_refl : (bs : List ℕ) → bytes_eq bs bs ≡ true
unfolding bytes_eq
bytes_eq_refl [] = refl
bytes_eq_refl (b ∷ bs) = ground (arith, bytes_eq_refl bs)

module _ (pbkdf2 : String → List ℕ → ℤ → List ℕ)
    (bytes : (password : String) (salt : List ℕ) (n : ℤ)
      → All IsByte (pbkdf2 password salt n)) where
  abbrev digest : List ℕ → String → List ℕ
  digest salt password = pbkdf2 password salt (pos pbkdf2_iterations)

  hash_parts :
      (salt : List ℕ) (password : String)
      → All IsByte salt
      → split_at 36 (hash_password pbkdf2 salt password)
        ≡ "pbkdf2_sha256"
          ∷ decimal pbkdf2_iterations
          ∷ to_hex salt
          ∷ to_hex (digest salt password)
          ∷ []
  unfolding hash_password
  hash_parts salt password h =
      ap (split_at 36) (append_assoc "pbkdf2_sha256" "$" _)
      ∙ parted "pbkdf2_sha256" _ algorithm-NoDollar
      ∙ ap (λ l. "pbkdf2_sha256" ∷ l)
          (parted (decimal pbkdf2_iterations) _
              (digits-NoDollar _ (decimal-AllDigits pbkdf2_iterations))
            ∙ ap (λ l. decimal pbkdf2_iterations ∷ l)
                (parted (to_hex salt) _ (to_hex-NoDollar salt h)
                  ∙ ap (λ l. to_hex salt ∷ l)
                      (split_at-last _ (
                        to_hex-NoDollar (digest salt password)
                          (bytes password salt (pos pbkdf2_iterations))))))

  verified :
      (salt : List ℕ) (password entered : String)
      → All IsByte salt
      → verify_password pbkdf2 entered (some (hash_password pbkdf2 salt password))
        ≡ bytes_eq (digest salt entered) (digest salt password)
  unfolding verify_password check_hash
  verified salt password entered h =
      ap (check_hash pbkdf2 entered) (hash_parts salt password h)
      ∙ rw
          (
            int-decimal pbkdf2_iterations,
            from_hex-to_hex salt h,
            from_hex-to_hex (digest salt password) (bytes password salt (pos pbkdf2_iterations)),
          )
          refl

  -- A stored password lets in the password itself, and of all other texts exactly those that have its
  -- digest with that salt. The salt and the digests are bytes.
  pub verify_password-hash_password :
      (salt : List ℕ) (password entered : String)
      → All IsByte salt
      → (verify_password pbkdf2 password (some (hash_password pbkdf2 salt password)) ≡ true)
        × (verify_password pbkdf2 entered (some (hash_password pbkdf2 salt password))
            ≡ bytes_eq (digest salt entered) (digest salt password))
  verify_password-hash_password salt password entered h = (
    verified salt password password h ∙ bytes_eq_refl (digest salt password),
    verified salt password entered h,
  )
