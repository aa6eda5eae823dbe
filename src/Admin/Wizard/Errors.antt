-- ===== src/Admin/Wizard/Errors.antt =====
-- When the wizard of admin/onboarding_wizard.py finds no error in the tenant's own fields.
use whatsapp_commerce_bot.Base.{
  ℕ, zero, suc, ◌≡◌, refl, ◌⊎◌, inl, inr, String, Bool, true, false, ◌&&◌, ◌||◌, not, Option, none,
  some, List, [], ◌++◌, str_eq, or_else, if◌then◌else◌,
}
use whatsapp_commerce_bot.Base.Int.{ℤ, pos, negsuc}
use whatsapp_commerce_bot.Base.Text.{strip}
use whatsapp_commerce_bot.Base.Numeral.{int}
use whatsapp_commerce_bot.Portal.{Form, field, FormError}
use whatsapp_commerce_bot.Portal.Products.{is_blank, error_if}
use whatsapp_commerce_bot.Admin.Wizard.{hours_of, wizard_hours, wizard_errors}

abbrev pub hours_text : Form → String
hours_text form = strip (or_else (form "abandoned_cart_nudge_hours") "")

abbrev pub provider_of : Form → String
provider_of form = field form "payment_gateway_provider"

-- A blank field stands for two hours, and another has a whole number above zero.
abbrev pub IsHours : String → ℕ → Type 0
IsHours text n =
    ((is_blank text ≡ true) × (n ≡ 2))
    ⊎ ((is_blank text ≡ false) × ((k : ℕ) × (n ≡ suc k) × (int text ≡ some (pos (suc k)))))

-- A name and a number are given, the provider is Razorpay or left out, and the hours are a number.
pub record IsComplete (form : Form) (n : ℕ) : Type 0 where
  pub name : is_blank (field form "name") ≡ false
  pub number : is_blank (field form "whatsapp_phone_number_id") ≡ false
  pub provider : (is_blank (provider_of form) || str_eq (provider_of form) "razorpay") ≡ true
  pub hours : IsHours (hours_text form) n

no_error :
    (b : Bool) (e : FormError) (es : List FormError)
    → error_if b e ++ es ≡ []
    → (b ≡ false) × (es ≡ [])
no_error true e es h = cc
no_error false e es h = (refl, h)

no_error_back :
    (b : Bool) (e : FormError) (es : List FormError) → b ≡ false → es ≡ [] → error_if b e ++ es ≡ []
no_error_back true e es h k = cc
no_error_back false e es h k = k

known_provider : (a b : Bool) → (not a && not b) ≡ false → (a || b) ≡ true
known_provider true b h = refl
known_provider false true h = refl
known_provider false false h = cc

known_provider_back : (a b : Bool) → (a || b) ≡ true → (not a && not b) ≡ false
known_provider_back true b h = refl
known_provider_back false true h = refl
known_provider_back false false h = cc

hours_of-IsHours :
    (o : Option ℤ)
    → (hours_of o).1 ≡ []
    → (k : ℕ) × ((hours_of o).0 ≡ suc k) × (o ≡ some (pos (suc k)))
hours_of-IsHours none h = cc
hours_of-IsHours (some (negsuc n)) h = cc
hours_of-IsHours (some (pos zero)) h = cc
hours_of-IsHours (some (pos (suc n))) h = (n, refl, refl)

by_blank :
    (text : String) (b : Bool)
    → is_blank text ≡ b
    → (if b then (2, []) else hours_of (int text)).1 ≡ []
    → IsHours text (if b then (2, []) else hours_of (int text)).0
by_blank text true e h = inl (e, refl)
by_blank text false e h = inr (e, hours_of-IsHours (int text) h)

by_blank_back :
    (text : String) (n : ℕ) (b : Bool)
    → is_blank text ≡ b
    → IsHours text n
    → (if b then (2, []) else hours_of (int text)).1 ≡ []
by_blank_back text n true e h = refl
by_blank_back text n false e (inl (blank, two)) = cc
by_blank_back text n false e (inr (other, (k, at, read))) = rw read refl

pub wizard_errors-IsComplete :
    (form : Form)
    → wizard_errors form ≡ []
    → IsComplete form (wizard_hours (or_else (form "abandoned_cart_nudge_hours") "")).0
unfolding wizard_errors wizard_hours
wizard_errors-IsComplete form h =
    let (name, h₁) = no_error (is_blank (field form "name")) _ _ h in
    let (number, h₂) = no_error (is_blank (field form "whatsapp_phone_number_id")) _ _ h₁ in
    let (provider, h₃) =
      no_error (not (is_blank (provider_of form)) && not (str_eq (provider_of form) "razorpay")) _ _
        h₂ in
    record {
      name = name;
      number = number;
      provider =
          known_provider (is_blank (provider_of form)) (str_eq (provider_of form) "razorpay")
            provider;
      hours = by_blank (hours_text form) (is_blank (hours_text form)) refl h₃;
    }

pub IsComplete-wizard_errors : (form : Form) (n : ℕ) → IsComplete form n → wizard_errors form ≡ []
unfolding wizard_errors wizard_hours
IsComplete-wizard_errors form n c = no_error_back (is_blank (field form "name")) _ _ c.name (
    no_error_back (is_blank (field form "whatsapp_phone_number_id")) _ _ c.number (
      no_error_back
        (not (is_blank (provider_of form)) && not (str_eq (provider_of form) "razorpay")) _ _
        (known_provider_back (is_blank (provider_of form)) (str_eq (provider_of form) "razorpay")
          c.provider)
        (by_blank_back (hours_text form) n (is_blank (hours_text form)) refl c.hours)))
