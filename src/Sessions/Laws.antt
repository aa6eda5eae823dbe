-- ===== src/Sessions/Laws.antt =====
-- Laws of the session store of core/history.py: reading after a write.
use whatsapp_commerce_bot.Base.{
  ℕ, ◌≡◌, String, false, true, ◌&&◌, [], ◌∷◌, arith, eq_iff, str_eq, ◌==◌, inl, inr, Bool-cases,
  if◌then◌else◌,
}
use whatsapp_commerce_bot.Sessions.{
  State, Context, Entry, Sessions, is_key, default_session, has_expired, get, set,
}

pub key_same :
    (t u : ℕ) (phone other : String) (e : Entry)
    → is_key t phone e ≡ true
    → is_key u other e ≡ ((t == u) && str_eq phone other)
key_same t u phone other e h =
    let own : str_eq e.phone phone ≡ true = ground (arith, h) in
    rw⁻¹ ((eq_iff e.phone phone).0 own) (ground (arith, h))

pub key_other :
    (t u : ℕ) (phone other : String) (e : Entry)
    → is_key t phone e ≡ false
    → ((t == u) && str_eq phone other) ≡ true
    → is_key u other e ≡ false
key_other t u phone other e h same =
    let one : str_eq phone other ≡ true = ground (arith, same) in
    rw⁻¹ ((eq_iff phone other).0 one) (ground (arith, h, same))

-- A session that was written is read back until it has expired, and from then on the conversation
-- starts anew; each customer of each tenant has one, whatever the others do.
pub get-set :
    (at now t u : ℕ) (phone other : String) (state : State) (context : Context) (s : Sessions)
    → get now u other (set at t phone state context s) ≡ (
        if (t == u) && str_eq phone other
        then (if has_expired now at
            then default_session
            else record { state = state; context = context })
        else get now u other s)
unfolding get set
get-set at now t u phone other state context [] = ground arith
get-set at now t u phone other state context (e ∷ es) = elim (Bool-cases (is_key t phone e)) [
  | inl own ↦ ground (arith, key_same t u phone other e own)
  | inr foreign ↦
      ground (
        arith,
        key_other t u phone other e foreign,
        get-set at now t u phone other state context es,
      )
]
