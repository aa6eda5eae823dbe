-- ===== src/Sessions/Redis/Refines.antt =====
-- The two session stores of core/history.py, after the same changes.
use whatsapp_commerce_bot.Base.{
  ℕ, ◌+◌, ◌≡◌, ◌≤◌, refl, ap, ◌∙◌, String, Bool, true, false, ◌&&◌, Option, none, some, List, [],
  ◌∷◌, ltb, ◌==◌, str_eq, arith, if◌then◌else◌,
}
use whatsapp_commerce_bot.Base.Text.Laws.{str_eq-append}
use whatsapp_commerce_bot.Sessions.{
  State, Context, Session, Sessions, timeout, default_session, has_expired, get, set, reset,
}
use whatsapp_commerce_bot.Sessions.Laws.{get-set}
use whatsapp_commerce_bot.Sessions.Redis.{
  Document, session_key, live_document, redis_get, redis_set, redis_reset,
}
use whatsapp_commerce_bot.Redis.{Redis, IsRedis}
use whatsapp_commerce_bot.Inbox.{lock_key}
use whatsapp_commerce_bot.Inbox.Locks.{lock_key-eq}
use whatsapp_commerce_bot.Sessions.Resets.{Distinct, reset-Distinct, set-Distinct, get-reset}

session_key-eq :
    (t u : ℕ) (phone other : String)
    → str_eq (session_key t phone) (session_key u other) ≡ ((t == u) && str_eq phone other)
unfolding session_key
session_key-eq t u phone other =
    str_eq-append "session:" (lock_key t phone) (lock_key u other) ∙ lock_key-eq t u phone other

-- What the handlers do to the store, the newest first.
pub data StoreChange : Type 0 where
  sets : (at tenant_id : ℕ) → String → State → Context → StoreChange
  resets : (tenant_id : ℕ) → String → StoreChange

unfoldable pub in_memory : List StoreChange → Sessions
in_memory [] = []
in_memory (sets at t phone state c ∷ changes) = set at t phone state c (in_memory changes)
in_memory (resets t phone ∷ changes) = reset t phone (in_memory changes)

abbrev pub IsPast : ℕ → List StoreChange → Type 0
IsPast now [] = Unit
IsPast now (sets at t phone state c ∷ changes) = (at ≤ now) × IsPast now changes
IsPast now (resets t phone ∷ changes) = IsPast now changes

in_memory-Distinct : (changes : List StoreChange) → Distinct (in_memory changes)
unfolding in_memory
in_memory-Distinct [] = tt
in_memory-Distinct (sets at t phone state c ∷ changes) =
    set-Distinct at t phone state c (in_memory changes) (in_memory-Distinct changes)
in_memory-Distinct (resets t phone ∷ changes) =
    reset-Distinct t phone (in_memory changes) (in_memory-Distinct changes)

-- A document that Redis still has, or has dropped, reads as the session in memory.
live-setex :
    (at now : ℕ) (x : Session)
    → at ≤ now
    → live_document now (
        if ltb now (at + (timeout + 300))
        then some (record { session = x; updated_at = at })
        else none)
      ≡ (if has_expired now at then default_session else x)
unfolding has_expired
live-setex at now x past = ground arith

live-if :
    (b : Bool) (now : ℕ) (o p : Option Document) (x y : Session)
    → live_document now o ≡ x
    → live_document now p ≡ y
    → live_document now (if b then o else p) ≡ (if b then x else y)
live-if true now o p x y h k = h
live-if false now o p x y h k = k

module _ {Server : Type 0} (redis : Redis Server Document) where
  unfoldable pub in_redis : List StoreChange → Server
  in_redis [] = redis.empty
  in_redis (sets at t phone state c ∷ changes) =
      redis_set redis at t phone state c (in_redis changes)
  in_redis (resets t phone ∷ changes) = redis_reset redis t phone (in_redis changes)

module _ {Server : Type 0} (redis : Redis Server Document) (is_redis : IsRedis redis) where
  -- Whatever was written and reset, and whenever it is read, the two stores have the same session of
  -- every customer of every tenant: the server's own expiry drops nothing that is still in use. No
  -- change is later than the reading.
  pub redis_get-in_redis :
      (now u : ℕ) (other : String) (changes : List StoreChange)
      → IsPast now changes
      → redis_get redis now u other (in_redis redis changes) ≡ get now u other (in_memory changes)
  unfolding redis_get redis_set redis_reset in_redis in_memory get
  redis_get-in_redis now u other [] past =
      ap (live_document now) (is_redis.get-empty now (session_key u other))
  redis_get-in_redis now u other (sets at t phone state c ∷ changes) (before, past) =
      ap (live_document now) (
        is_redis.get-setex at now (session_key t phone) (session_key u other) (timeout + 300)
          (record { session = record { state = state; context = c }; updated_at = at })
          (in_redis redis changes) before)
      ∙ rw
          (
            session_key-eq t u phone other,
            get-set at now t u phone other state c (in_memory changes),
          )
          (live-if ((t == u) && str_eq phone other) now _ _ _ _
            (live-setex at now (record { state = state; context = c }) before)
            (redis_get-in_redis now u other changes past))
  redis_get-in_redis now u other (resets t phone ∷ changes) past =
      ap (live_document now) (
        is_redis.get-delete now (session_key t phone) (session_key u other)
          (in_redis redis changes))
      ∙ rw
          (
            session_key-eq t u phone other,
            get-reset now t u phone other (in_memory changes) (in_memory-Distinct changes),
          )
          (live-if ((t == u) && str_eq phone other) now none _ default_session _ refl
            (redis_get-in_redis now u other changes past))
