-- ===== src/Sessions/Resets.antt =====
-- What a reset leaves of the in-memory sessions of core/history.py.
use whatsapp_commerce_bot.Base.{
  ℕ, ◌≡◌, refl, ◌∙◌, String, Bool, true, false, ◌&&◌, [], ◌∷◌, ◌==◌, str_eq, arith, eq_iff,
  Bool-cases, inl, inr, if◌then◌else◌,
}
use whatsapp_commerce_bot.Base.Table.{any_row}
use whatsapp_commerce_bot.Sessions.{
  State, Context, Entry, Sessions, default_session, is_key, get, set, reset,
}
use whatsapp_commerce_bot.Sessions.Laws.{key_same, key_other}

-- A key has one entry at most.
abbrev pub Distinct : Sessions → Type 0
Distinct [] = Unit
Distinct (e ∷ es) = (any_row (is_key e.tenant_id e.phone) es ≡ false) × Distinct es

if-Distinct :
    (b : Bool) (x y : Sessions)
    → Distinct x
    → (b ≡ false → Distinct y)
    → Distinct (if b then x else y)
if-Distinct true x y h k = h
if-Distinct false x y h k = k refl

get-absent :
    (now t : ℕ) (phone : String) (s : Sessions)
    → any_row (is_key t phone) s ≡ false
    → get now t phone s ≡ default_session
unfolding get any_row
get-absent now t phone [] h = refl
get-absent now t phone (e ∷ es) h = ground (arith, get-absent now t phone es)

any_row-reset :
    (test : Entry → Bool) (t : ℕ) (phone : String) (s : Sessions)
    → any_row test s ≡ false
    → any_row test (reset t phone s) ≡ false
unfolding any_row reset
any_row-reset test t phone [] h = h
any_row-reset test t phone (e ∷ es) h = ground (arith, any_row-reset test t phone es)

pub reset-Distinct :
    (t : ℕ) (phone : String) (s : Sessions) → Distinct s → Distinct (reset t phone s)
unfolding reset
reset-Distinct t phone [] d = d
reset-Distinct t phone (e ∷ es) (h, d) =
    if-Distinct (is_key t phone e) es (e ∷ reset t phone es) d
      (λ n. (any_row-reset (is_key e.tenant_id e.phone) t phone es h, reset-Distinct t phone es d))

-- An entry has its own key.
own_key : (e : Entry) → is_key e.tenant_id e.phone e ≡ true
own_key e = ground (arith, (eq_iff e.phone e.phone).1 refl)

not_its :
    (t : ℕ) (phone : String) (e : Entry)
    → is_key t phone e ≡ false
    → ((t == e.tenant_id) && str_eq phone e.phone) ≡ false
not_its t phone e n = elim (Bool-cases ((t == e.tenant_id) && str_eq phone e.phone)) [
  | inl same ↦
      let foreign = key_other t e.tenant_id phone e.phone e n same in let own = own_key e in cc
  | inr other ↦ other
]

any_row-set :
    (u : ℕ) (other : String) (at t : ℕ) (phone : String) (state : State) (c : Context)
    (s : Sessions)
    → ((t == u) && str_eq phone other) ≡ false
    → any_row (is_key u other) s ≡ false
    → any_row (is_key u other) (set at t phone state c s) ≡ false
unfolding any_row set
any_row-set u other at t phone state c [] n h = ground arith
any_row-set u other at t phone state c (e ∷ es) n h =
    ground (arith, any_row-set u other at t phone state c es n)

pub set-Distinct :
    (at t : ℕ) (phone : String) (state : State) (c : Context) (s : Sessions)
    → Distinct s
    → Distinct (set at t phone state c s)
unfolding set any_row
set-Distinct at t phone state c [] d = (refl, tt)
set-Distinct at t phone state c (e ∷ es) (h, d) =
    if-Distinct (is_key t phone e) (written ∷ es) (e ∷ set at t phone state c es) (h, d)
      λ n. (
        any_row-set e.tenant_id e.phone at t phone state c es (not_its t phone e n) h,
        set-Distinct at t phone state c es d,
      )
  where
    written : Entry
    written = record e { session = record { state = state; context = c }; updated_at = at }

pub get-reset :
    (now t u : ℕ) (phone other : String) (s : Sessions)
    → Distinct s
    → get now u other (reset t phone s)
      ≡ (if (t == u) && str_eq phone other then default_session else get now u other s)
unfolding get reset
get-reset now t u phone other [] d = ground arith
get-reset now t u phone other (e ∷ es) (h, d) = elim (Bool-cases (is_key t phone e)) [
  | inl own ↦ elim (Bool-cases ((t == u) && str_eq phone other)) [
    | inl same ↦
        ground (
          arith,
          own,
          same,
          get-absent now u other es (gone (key_same t u phone other e own ∙ same)),
        )
    | inr apart ↦ ground (arith, own, apart, key_same t u phone other e own ∙ apart)
  ]
  | inr foreign ↦
      ground (arith, key_other t u phone other e foreign, get-reset now t u phone other es d)
]
  where
    gone : is_key u other e ≡ true → any_row (is_key u other) es ≡ false
    gone k =
        let phones : str_eq e.phone other ≡ true = ground (arith, k) in
        let ids : e.tenant_id ≡ u = ground (arith, k) in
        rw⁻¹ ((eq_iff e.phone other).0 phones) (rw⁻¹ ids h)
