-- ===== src/Base/Table.antt =====
-- A database table: its rows in the order of their ids, and the next value of its id sequence.
-- A query is written by the test of its WHERE clause.
use Prim.Native.Nat.{ℕ, suc, ◌<◌}
use mathlib.Core.Path.{◌≡◌, refl, sym, subst, ◌∙◌}
use mathlib.Core.Logic.{◌≢◌, inl, inr}
use mathlib.Core.Bool.{Bool, true, false, ◌||◌, ◌&&◌}
use mathlib.Core.List.{List, [], ◌∷◌, ◌++◌}
use mathlib.Core.Option.{Option, none, some}
use native.Mathlib.Omega.{arith}
use whatsapp_commerce_bot.Base.Tests.{if◌then◌else◌, is_some, Bool-cases}
use whatsapp_commerce_bot.Base.Lists.{All}

pub record Table (A : Type 0) : Type 0 where
  pub rows : List A
  pub next_id : ℕ

module _ {A : Type 0} where
  -- `SELECT … WHERE p` and `fetchone`.
  unfoldable pub select_one : (A → Bool) → List A → Option A
  select_one p [] = none
  select_one p (r ∷ rs) = if p r then some r else select_one p rs

  -- `UPDATE … SET f WHERE p`.
  unfoldable pub update_where : (A → Bool) → (A → A) → List A → List A
  update_where p f [] = []
  update_where p f (r ∷ rs) = (if p r then f r else r) ∷ update_where p f rs

  -- `rowcount > 0` of a statement with that WHERE clause.
  unfoldable pub any_row : (A → Bool) → List A → Bool
  any_row p [] = false
  any_row p (r ∷ rs) = p r || any_row p rs

  abbrev pub update_table : (A → Bool) → (A → A) → Table A → Table A
  update_table p f t = record t { rows = update_where p f t.rows }

  -- `INSERT … RETURNING id`: the row is built from its new id.
  abbrev pub insert_row : (ℕ → A) → Table A → Table A
  insert_row mk t = record { rows = t.rows ++ mk t.next_id ∷ []; next_id = suc t.next_id }

  -- An update whose change keeps a query's test true is seen by that query.
  pub select_one-update_where :
      (p q : A → Bool) (f : A → A)
      → ((r : A) → q (f r) ≡ q r)
      → (rs : List A)
      → select_one q (update_where p f rs)
        ≡ elim (select_one q rs) [ none ↦ none | some r ↦ some (if p r then f r else r) ]
  unfolding select_one update_where
  select_one-update_where p q f keep [] = refl
  select_one-update_where p q f keep (r ∷ rs) =
      ground (arith, keep r, select_one-update_where p q f keep rs)

  pub update_where-All {κ} :
      (P : A → Type κ) (p : A → Bool) (f : A → A)
      → ((r : A) → p r ≡ true → P r → P (f r))
      → (rs : List A) → All P rs
      → All P (update_where p f rs)
  unfolding update_where
  update_where-All P p f keep [] h = tt
  update_where-All P p f keep (r ∷ rs) h =
      (row (p r) (keep r) h.0, update_where-All P p f keep rs h.1)
    where
      row : (b : Bool) → (b ≡ true → P r → P (f r)) → P r → P (if b then f r else r)
      row true k x = k refl x
      row false k x = x

  -- Where no row passes, an update changes nothing.
  pub update_where-none :
      (p : A → Bool) (f : A → A) (rs : List A) → any_row p rs ≡ false → update_where p f rs ≡ rs
  unfolding update_where any_row
  update_where-none p f [] h = refl
  update_where-none p f (r ∷ rs) h = ground (arith, update_where-none p f rs)

  pub any_row-false :
      (p : A → Bool) → ((r : A) → p r ≡ false) → (rs : List A) → any_row p rs ≡ false
  unfolding any_row
  any_row-false p h [] = refl
  any_row-false p h (r ∷ rs) = ground (arith, h r, any_row-false p h rs)

  -- Rows that a query finds pass its test.
  pub select_one_holds :
      (p : A → Bool) (rs : List A) {r : A} → select_one p rs ≡ some r → p r ≡ true
  unfolding select_one
  select_one_holds p [] h = cc
  select_one_holds p (x ∷ rs) {r} h = ground (arith, select_one_holds p rs {r = r})

  pub select_one-All {κ} :
      (P : A → Type κ) (p : A → Bool) (rs : List A) {r : A}
      → All P rs
      → select_one p rs ≡ some r
      → P r
  unfolding select_one
  select_one-All P p [] h e = cc
  select_one-All P p (x ∷ rs) {r} h e = ground (arith, select_one-All P p rs {r = r} h.1)

  -- A row is no longer updated where the update takes it out of the WHERE clause.
  pub any_row-update_where_self :
      (p : A → Bool) (f : A → A)
      → ((r : A) → p r ≡ true → p (f r) ≡ false)
      → (rs : List A) → any_row p (update_where p f rs) ≡ false
  unfolding any_row update_where
  any_row-update_where_self p f spent [] = refl
  any_row-update_where_self p f spent (r ∷ rs) =
      ground (arith, spent r, any_row-update_where_self p f spent rs)

  pub any_row-update_where :
      (p q : A → Bool) (f : A → A)
      → ((r : A) → q (if p r then f r else r) ≡ false)
      → (rs : List A) → any_row q (update_where p f rs) ≡ false
  unfolding any_row update_where
  any_row-update_where p q f leaves [] = refl
  any_row-update_where p q f leaves (r ∷ rs) =
      ground (arith, leaves r, any_row-update_where p q f leaves rs)

  pub any_row-update_where_keep :
      (p q : A → Bool) (f : A → A)
      → ((r : A) → q (f r) ≡ q r)
      → (rs : List A) → any_row q (update_where p f rs) ≡ any_row q rs
  unfolding any_row update_where
  any_row-update_where_keep p q f keep [] = refl
  any_row-update_where_keep p q f keep (r ∷ rs) =
      ground (arith, keep r, any_row-update_where_keep p q f keep rs)

  pub any_row-narrow :
      (q p : A → Bool)
      → ((r : A) → p r ≡ true → q r ≡ true)
      → (rs : List A) → select_one q rs ≡ none
      → any_row p rs ≡ false
  unfolding any_row select_one
  any_row-narrow q p within [] e = refl
  any_row-narrow q p within (r ∷ rs) e = ground (arith, within r, any_row-narrow q p within rs)

  -- A found row is one that a statement with that WHERE clause counts.
  pub any_row-select_one : (p : A → Bool) (rs : List A) → any_row p rs ≡ is_some (select_one p rs)
  unfolding any_row select_one
  any_row-select_one p [] = refl
  any_row-select_one p (r ∷ rs) = ground (arith, any_row-select_one p rs)

  pub select_one-append :
      (p : A → Bool) (rs ss : List A)
      → select_one p (rs ++ ss)
        ≡ elim (select_one p rs) [ none ↦ select_one p ss | some r ↦ some r ]
  unfolding select_one
  select_one-append p [] ss = ground arith
  select_one-append p (r ∷ rs) ss = ground (arith, select_one-append p rs ss)

  pub select_one-singleton : (p : A → Bool) (r : A) → p r ≡ true → select_one p (r ∷ []) ≡ some r
  unfolding select_one
  select_one-singleton p r h = ground arith

  pub select_one-none :
      (p : A → Bool) (rs : List A) → All (λ r. p r ≡ false) rs → select_one p rs ≡ none
  unfolding select_one
  select_one-none p [] h = refl
  select_one-none p (r ∷ rs) h = ground (arith, select_one-none p rs h.1)

-- The ids of a table's rows differ from one another, and from those still to come.
module _ {A : Type 0} (key : A → ℕ) where
  abbrev pub Unique : List A → Type 0
  Unique [] = Unit
  Unique (r ∷ rs) = All (λ s. key s ≢ key r) rs × Unique rs

  abbrev pub IsBelow : ℕ → List A → Type 0
  IsBelow n rs = All (λ r. key r < n) rs

  All-update_where :
      (k : ℕ) (p : A → Bool) (f : A → A)
      → ((r : A) → key (f r) ≡ key r)
      → (rs : List A) → All (λ s. key s ≢ k) rs
      → All (λ s. key s ≢ k) (update_where p f rs)
  All-update_where k p f keep rs h =
      update_where-All (λ s. key s ≢ k) p f (λ r _ ne e. ne (sym (keep r) ∙ e)) rs h

  -- An update that writes no id leaves the ids different.
  pub update_where-Unique :
      (p : A → Bool) (f : A → A)
      → ((r : A) → key (f r) ≡ key r)
      → (rs : List A) → Unique rs
      → Unique (update_where p f rs)
  unfolding update_where
  update_where-Unique p f keep [] u = tt
  update_where-Unique p f keep (r ∷ rs) u = (
    subst (λ k. All (λ s. key s ≢ k) (update_where p f rs)) (sym (row (p r)))
        (All-update_where (key r) p f keep rs u.0),
    update_where-Unique p f keep rs u.1,
  )
    where
      row : (b : Bool) → key (if b then f r else r) ≡ key r
      row true = keep r
      row false = refl

  any_row-elsewhere :
      (q p : A → Bool) (k : ℕ)
      → ((r : A) → q r ≡ true → key r ≡ k)
      → (rs : List A) → All (λ s. key s ≢ k) rs
      → any_row (λ r. q r && p r) rs ≡ false
  unfolding any_row
  any_row-elsewhere q p k at [] h = refl
  any_row-elsewhere q p k at (r ∷ rs) h = ground (arith, at r, any_row-elsewhere q p k at rs h.1)

  -- A statement that narrows a query for one id counts the row that the query finds.
  pub any_row-found :
      (q p : A → Bool) (k : ℕ)
      → ((r : A) → q r ≡ true → key r ≡ k)
      → (rs : List A) → Unique rs
      → (r : A) → select_one q rs ≡ some r
      → any_row (λ s. q s && p s) rs ≡ p r
  unfolding any_row select_one
  any_row-found q p k at [] u r e = cc
  any_row-found q p k at (x ∷ rs) u r e = elim (Bool-cases (q x)) [
    | inl here ↦ ground (
      arith,
      any_row-elsewhere q p k at rs (subst (λ n. All (λ s. key s ≢ n) rs) (at x here) u.0),
    )
    | inr elsewhere ↦ ground (arith, any_row-found q p k at rs u.1 r)
  ]
