-- ===== src/Inbox/Locks.antt =====
-- The message lock's in-memory fallback, in core/main.py.
use Prim.Native.String.{◌++◌ as str_append}
use whatsapp_commerce_bot.Base.{
  ℕ, ◌+◌, ◌≡◌, refl, sym, ap, ap₂, ◌∙◌, inl, inr, String, Bool, true, false, not, ◌&&◌, Option,
  none, some, [], ◌∷◌, arith, eq_iff, str_eq, ltb, ◌==◌, Bool-cases, if◌then◌else◌,
}
use whatsapp_commerce_bot.Base.Int.{ℤ, pos}
use whatsapp_commerce_bot.Base.Numeral.{decimal, int}
use whatsapp_commerce_bot.Base.Numeral.Laws.{int-decimal, decimal-AllDigits}
use whatsapp_commerce_bot.Payments.{partition}
use whatsapp_commerce_bot.Payments.Reference.{partition-digits, colon-append}
use whatsapp_commerce_bot.Base.Text.Laws.{str_eq_trans, other_label}
use whatsapp_commerce_bot.Inbox.{Locks, lock_ttl, lock_key, expiry_of, hold, acquire_message_lock}

-- A key is cut at its first colon into the tenant's id and the phone number.
partition-lock_key :
    (t : ℕ) (phone : String) → partition (lock_key t phone) ≡ some (decimal t, phone)
unfolding lock_key
partition-lock_key t phone =
    ap (λ s. partition (str_append (decimal t) s)) (colon-append phone)
    ∙ partition-digits (decimal t) phone (decimal-AllDigits t)

abbrev first_of : Option (String × String) → String
first_of none = ""
first_of (some (a, b)) = a

abbrev second_of : Option (String × String) → String
second_of none = ""
second_of (some (a, b)) = b

abbrev id_in : Option ℤ → ℕ
id_in (some (pos n)) = n
id_in o = 0

-- Two keys are the same only for the same tenant and phone number.
lock_key-injective :
    (t u : ℕ) (phone other : String)
    → lock_key t phone ≡ lock_key u other
    → (t ≡ u) × (phone ≡ other)
lock_key-injective t u phone other e =
    let parts : some (decimal t, phone) ≡ some (decimal u, other) =
      sym (partition-lock_key t phone) ∙ ap partition e ∙ partition-lock_key u other in
    (
      ap id_in (sym (int-decimal t))
          ∙ ap (λ o. id_in (int (first_of o))) parts
          ∙ ap id_in (int-decimal u),
      ap second_of parts,
    )

both :
    (t u : ℕ) (phone other : String)
    → t ≡ u
    → phone ≡ other
    → ((t == u) && str_eq phone other) ≡ true
both t u phone other ids phones = ground (arith, ids, (eq_iff phone other).1 phones)

pub lock_key-eq :
    (t u : ℕ) (phone other : String)
    → str_eq (lock_key t phone) (lock_key u other) ≡ ((t == u) && str_eq phone other)
lock_key-eq t u phone other = elim (Bool-cases (str_eq (lock_key t phone) (lock_key u other))) [
  | inl same ↦
      let (ids, phones) =
        lock_key-injective t u phone other
          ((eq_iff (lock_key t phone) (lock_key u other)).0 same) in
      same ∙ sym (both t u phone other ids phones)
  | inr different ↦ elim (Bool-cases ((t == u) && str_eq phone other)) [
    | inl own ↦ absurd (apart different own)
    | inr no_match ↦ different ∙ sym no_match
  ]
]
  where
    parts : ((t == u) && str_eq phone other) ≡ true → (t ≡ u) × (str_eq phone other ≡ true)
    parts own = ground arith

    apart :
        str_eq (lock_key t phone) (lock_key u other) ≡ false
        → ((t == u) && str_eq phone other) ≡ true
        → ⊥
    apart different own =
        let (ids, phones) = parts own in
        let here =
          (eq_iff (lock_key t phone) (lock_key u other)).1
            (ap₂ lock_key ids ((eq_iff phone other).0 phones)) in
        cc

expiry_of-hold :
    (key other : String) (expiry : ℕ) (locks : Locks)
    → expiry_of other (hold key expiry locks)
      ≡ (if str_eq key other then expiry else expiry_of other locks)
unfolding expiry_of hold
expiry_of-hold key other expiry [] = refl
expiry_of-hold key other expiry ((k, e) ∷ locks) = elim (Bool-cases (str_eq k key)) [
  | inl same ↦ ground (arith, str_eq_trans k key other same)
  | inr different ↦ elim (Bool-cases (str_eq k other)) [
    | inl at ↦ ground (arith, other_label k key other at different)
    | inr away ↦ ground (arith, expiry_of-hold key other expiry locks)
  ]
]

abbrev pub is_free : ℕ → ℕ → String → Locks → Bool
is_free now tenant_id phone locks = (acquire_message_lock now tenant_id phone locks).0

is_free-expiry :
    (now t : ℕ) (phone : String) (locks : Locks)
    → is_free now t phone locks ≡ not (ltb now (expiry_of (lock_key t phone) locks))
unfolding acquire_message_lock
is_free-expiry now t phone locks = ground arith

-- A message that gets the lock holds it for its time to live against every other message of the same
-- customer and tenant, and against no other; one that does not get it changes nothing.
pub acquire_message_lock-excludes :
    (now later t u : ℕ) (phone other : String) (locks : Locks)
    → is_free later u other (acquire_message_lock now t phone locks).1 ≡ (
        if is_free now t phone locks && ((t == u) && str_eq phone other)
        then not (ltb later (now + lock_ttl))
        else is_free later u other locks)
unfolding acquire_message_lock
acquire_message_lock-excludes now later t u phone other locks = ground (
  arith,
  expiry_of-hold (lock_key t phone) (lock_key u other) (now + lock_ttl) locks,
  lock_key-eq t u phone other,
)
