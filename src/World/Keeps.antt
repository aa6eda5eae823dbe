-- ===== src/World/Keeps.antt =====
-- Invariants of actions, one rule for each way to build an action.
use whatsapp_commerce_bot.Base.{◌≡◌, ap, Bool, true, false, Option, none, some, if◌then◌else◌}
use whatsapp_commerce_bot.Db.{Database}
use whatsapp_commerce_bot.World.{World, Action, pure, query, ◌>>=◌, on_some}

pub record Keeps {A : Type 0} (P : World → Type 0) (m : Action A) : Type 0 where
  pub at : (w : World) → P w → P (m w).1

module _ {A : Type 0} {P : World → Type 0} where
  pub Keeps-pure : (a : A) → Keeps P (pure a)
  unfolding pure
  Keeps-pure a = record { at = λ w h. h }

  pub Keeps-query : (f : Database → A) → Keeps P (query f)
  unfolding query
  Keeps-query f = record { at = λ w h. h }

  pub Keeps-if : (b : Bool) (m n : Action A) → Keeps P m → Keeps P n → Keeps P (if b then m else n)
  Keeps-if true m n km kn = km
  Keeps-if false m n km kn = kn

module _ {A B : Type 0} {P : World → Type 0} where
  pub Keeps-bind :
      (m : Action A) (f : A → Action B) → Keeps P m → ((a : A) → Keeps P (f a)) → Keeps P (m >>= f)
  unfolding ◌>>=◌
  Keeps-bind m f km kf = record { at = λ w h. let (a, w') = m w in (kf a).at w' (km.at w h) }

  -- What is read is the value that the database has.
  pub Keeps-read :
      (f : Database → A) (g : A → Action B)
      → ((d : Database) → Keeps P (g (f d)))
      → Keeps P (query f >>= g)
  unfolding query ◌>>=◌
  Keeps-read f g k = record { at = λ w h. (k w.db).at w h }

  pub Keeps-on_some :
      (o : Option A) (m : Action B) (f : A → Action B)
      → Keeps P m
      → ((a : A) → Keeps P (f a))
      → Keeps P (on_some o m f)
  unfolding on_some
  Keeps-on_some none m f km kf = km
  Keeps-on_some (some a) m f km kf = kf a

pub ruleset keeps_rules = (Keeps-pure, Keeps-query, Keeps-if, Keeps-read, Keeps-bind, Keeps-on_some)

-- Branches that are taken.
module _ {A B : Type 0} where
  pub on_some-found :
      (o : Option A) (m : Action B) (f : A → Action B) (a : A) (w : World)
      → o ≡ some a
      → on_some o m f w ≡ f a w
  unfolding on_some
  on_some-found o m f a w e = ap (λ x. on_some x m f w) e

  pub on_some-missing :
      (o : Option A) (m : Action B) (f : A → Action B) (w : World)
      → o ≡ none
      → on_some o m f w ≡ m w
  unfolding on_some
  on_some-missing o m f w e = ap (λ x. on_some x m f w) e

pub if-taken :
    {B : Type 0} (b : Bool) (m n : Action B) (w : World) → b ≡ true → (if b then m else n) w ≡ m w
if-taken b m n w e = ap (λ x. (if x then m else n) w) e
