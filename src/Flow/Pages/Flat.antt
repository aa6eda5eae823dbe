-- ===== src/Flow/Pages/Flat.antt =====
-- The products of all groups one after another, which is the order that `_send_product_list` of
-- core/commerce_flow.py pages through.
use whatsapp_commerce_bot.Base.{
  length-append, arith, suc, length, append_assoc, append_nil, ◌≡◌, refl, sym, ap, ◌∙◌, ◌≢◌, inl,
  inr, subst, String, List, [], ◌∷◌, ◌++◌, All, str_eq, Bool-cases, suc, ◌+◌, length, length-append,
  arith,
}
use whatsapp_commerce_bot.Base.Table.{Unique}
use whatsapp_commerce_bot.Db.{Product}
use whatsapp_commerce_bot.Flow.Pages.{
  Groups, category_label, add_to_group, group_from, group_products_by_category, flat_products,
  id_of,
}

-- A product that is added stands somewhere among the products that were there.
abbrev Inserted : Product → List Product → List Product → Type 0
Inserted p before after =
    (front : List Product) × (back : List Product) × (before ≡ front ++ back)
    × (after ≡ front ++ p ∷ back)

Inserted-append :
    (p : Product) (ps before after : List Product)
    → Inserted p before after
    → Inserted p (ps ++ before) (ps ++ after)
Inserted-append p ps before after (front, back, b, a) = (
  ps ++ front,
  back,
  ap (λ qs. ps ++ qs) b ∙ sym (append_assoc ps front back),
  ap (λ qs. ps ++ qs) a ∙ sym (append_assoc ps front (p ∷ back)),
)

add_to_group-Inserted :
    (l : String) (p : Product) (gs : Groups)
    → Inserted p (flat_products gs) (flat_products (add_to_group l p gs))
unfolding add_to_group flat_products
add_to_group-Inserted l p [] = ([], [], refl, refl)
add_to_group-Inserted l p ((k, ps) ∷ gs) = elim (Bool-cases (str_eq k l)) [
  | inl same ↦ rw same (ps, flat_products gs, refl, append_assoc ps (p ∷ []) (flat_products gs))
  | inr different ↦ rw different (
      Inserted-append p ps (flat_products gs) (flat_products (add_to_group l p gs))
        (add_to_group-Inserted l p gs))
]

-- Uniqueness does not depend on where a product stands.
All-middle :
    (P : Product → Type 0) (p : Product) (xs ys : List Product)
    → All P (xs ++ p ∷ ys)
    → P p × All P (xs ++ ys)
All-middle P p [] ys (h, hs) = (h, hs)
All-middle P p (x ∷ xs) ys (h, hs) = let (at, others) = All-middle P p xs ys hs in (at, (h, others))

All-insert :
    (P : Product → Type 0) (p : Product) (xs ys : List Product)
    → P p
    → All P (xs ++ ys)
    → All P (xs ++ p ∷ ys)
All-insert P p [] ys at hs = (at, hs)
All-insert P p (x ∷ xs) ys at (h, hs) = (h, All-insert P p xs ys at hs)

abbrev Away : Product → List Product → Type 0
Away p ps = All (λ s. id_of s ≢ id_of p) ps

Unique-middle :
    (p : Product) (xs ys : List Product)
    → Unique id_of (xs ++ p ∷ ys)
    → Away p (xs ++ ys) × Unique id_of (xs ++ ys)
Unique-middle p [] ys u = u
Unique-middle p (x ∷ xs) ys (h, u) =
    let (away, rest) = Unique-middle p xs ys u in
    let (at, others) = All-middle (λ s. id_of s ≢ id_of x) p xs ys h in
    ((λ e. at (sym e), away), (others, rest))

Unique-insert :
    (p : Product) (xs ys : List Product)
    → Away p (xs ++ ys)
    → Unique id_of (xs ++ ys)
    → Unique id_of (xs ++ p ∷ ys)
Unique-insert p [] ys away u = (away, u)
Unique-insert p (x ∷ xs) ys (at, away) (h, u) =
    (All-insert (λ s. id_of s ≢ id_of x) p xs ys (λ e. at (sym e)) h, Unique-insert p xs ys away u)

Unique-Inserted :
    (p : Product) (before after rest : List Product)
    → Inserted p before after
    → Unique id_of (before ++ p ∷ rest)
    → Unique id_of (after ++ rest)
Unique-Inserted p before after rest (front, back, b, a) u =
    let (away, others) = Unique-middle p before rest u in
    let same : before ++ rest ≡ front ++ (back ++ rest) =
      ap (λ qs. qs ++ rest) b ∙ append_assoc front back rest in
    let moved : after ++ rest ≡ front ++ p ∷ (back ++ rest) =
      ap (λ qs. qs ++ rest) a ∙ append_assoc front (p ∷ back) rest in
    subst (Unique id_of) (sym moved) (
      Unique-insert p front (back ++ rest) (subst (Away p) same away)
        (subst (Unique id_of) same others))

Unique-group_from :
    (gs : Groups) (ps : List Product)
    → Unique id_of (flat_products gs ++ ps)
    → Unique id_of (flat_products (group_from gs ps))
unfolding group_from
Unique-group_from gs [] u = subst (Unique id_of) (append_nil (flat_products gs)) u
Unique-group_from gs (p ∷ ps) u =
    let l = category_label p in
    Unique-group_from (add_to_group l p gs) ps (
      Unique-Inserted p (flat_products gs) (flat_products (add_to_group l p gs)) ps
        (add_to_group-Inserted l p gs) u)

pub flat_products-Unique :
    (ps : List Product)
    → Unique id_of ps
    → Unique id_of (flat_products (group_products_by_category ps))
unfolding group_products_by_category flat_products
flat_products-Unique ps u = Unique-group_from [] ps u

length-Inserted :
    (p : Product) (before after : List Product)
    → Inserted p before after
    → length after ≡ suc (length before)
length-Inserted p before after (front, back, b, a) =
    ap length a
    ∙ omega (arith, length-append front (p ∷ back), length-append front back)
    ∙ ap (λ qs. suc (length qs)) (sym b)

length-group_from :
    (gs : Groups) (ps : List Product)
    → length (flat_products (group_from gs ps)) ≡ length (flat_products gs) + length ps
unfolding group_from
length-group_from gs [] = omega arith
length-group_from gs (p ∷ ps) =
    let l = category_label p in
    omega (
      arith,
      length-group_from (add_to_group l p gs) ps,
      length-Inserted p (flat_products gs) (flat_products (add_to_group l p gs))
          (add_to_group-Inserted l p gs),
    )

-- Grouping keeps the number of the products.
pub length-flat_products :
    (ps : List Product) → length (flat_products (group_products_by_category ps)) ≡ length ps
unfolding group_products_by_category flat_products
length-flat_products ps = omega (arith, length-group_from [] ps)
