-- ===== src/Flow/Pages/Groups.antt =====
-- What `_group_products_by_category` of core/commerce_flow.py makes of a list of products.
use whatsapp_commerce_bot.Base.{
  append_assoc, append_nil, ◌≡◌, sym, ap, ◌∙◌, inl, inr, String, Bool, true, false, List, [], ◌∷◌,
  ◌++◌, arith, select, All, str_eq, if◌then◌else◌, Bool-cases,
}
use whatsapp_commerce_bot.Base.Text.Laws.{sym_false, other_label, str_eq_trans}
use whatsapp_commerce_bot.Db.{Product}
use whatsapp_commerce_bot.Flow.Pages.{
  Groups, category_label, add_to_group, group_from, group_products_by_category,
}

abbrev pub products_under : String → Groups → List Product
products_under label [] = []
products_under label ((l, ps) ∷ gs) = if str_eq l label then ps else products_under label gs

abbrev pub Distinct : Groups → Type 0
Distinct [] = Unit
Distinct ((l, ps) ∷ gs) = All (λ g. str_eq g.0 l ≡ false) gs × Distinct gs

-- A product joins the group of its label and no other.
products_under-add_to_group :
    (label l : String) (p : Product) (gs : Groups)
    → products_under label (add_to_group l p gs)
      ≡ (if str_eq l label then products_under label gs ++ p ∷ [] else products_under label gs)
unfolding add_to_group
products_under-add_to_group label l p [] = ground arith
products_under-add_to_group label l p ((k, ps) ∷ gs) = elim (Bool-cases (str_eq k l)) [
  | inl same ↦ ground (arith, str_eq_trans k l label same)
  | inr different ↦ elim (Bool-cases (str_eq k label)) [
    | inl at ↦ ground (arith, other_label k l label at different)
    | inr away ↦ ground (arith, products_under-add_to_group label l p gs)
  ]
]

splice :
    (b : Bool) (under : List Product) (p : Product) (rest joined : List Product)
    → joined ≡ (if b then under ++ p ∷ [] else under)
    → joined ++ rest ≡ under ++ (if b then p ∷ rest else rest)
splice true under p rest joined e = ap (λ ps. ps ++ rest) e ∙ append_assoc under (p ∷ []) rest
splice false under p rest joined e = ap (λ ps. ps ++ rest) e

products_under-group_from :
    (label : String) (gs : Groups) (ps : List Product)
    → products_under label (group_from gs ps)
      ≡ products_under label gs ++ select (λ p. str_eq (category_label p) label) ps
unfolding group_from
products_under-group_from label gs [] = sym (append_nil (products_under label gs))
products_under-group_from label gs (p ∷ ps) =
    products_under-group_from label (add_to_group (category_label p) p gs) ps
    ∙ splice (str_eq (category_label p) label) (products_under label gs) p
        (select (λ q. str_eq (category_label q) label) ps)
        (products_under label (add_to_group (category_label p) p gs))
        (products_under-add_to_group label (category_label p) p gs)

All-add_to_group :
    (k l : String) (p : Product) (gs : Groups)
    → All (λ g. str_eq g.0 k ≡ false) gs
    → str_eq k l ≡ false
    → All (λ g. str_eq g.0 k ≡ false) (add_to_group l p gs)
unfolding add_to_group
All-add_to_group k l p [] h away = (sym_false k l away, tt)
All-add_to_group k l p ((m, ps) ∷ gs) h away = elim (Bool-cases (str_eq m l)) [
  | inl same ↦ rw same h
  | inr different ↦ rw different (h.0, All-add_to_group k l p gs h.1 away)
]

Distinct-add_to_group :
    (l : String) (p : Product) (gs : Groups) → Distinct gs → Distinct (add_to_group l p gs)
unfolding add_to_group
Distinct-add_to_group l p [] d = (tt, tt)
Distinct-add_to_group l p ((k, ps) ∷ gs) (fresh, d) = elim (Bool-cases (str_eq k l)) [
  | inl same ↦ rw same (fresh, d)
  | inr different ↦
      rw different (All-add_to_group k l p gs fresh different, Distinct-add_to_group l p gs d)
]

Distinct-group_from : (gs : Groups) (ps : List Product) → Distinct gs → Distinct (group_from gs ps)
unfolding group_from
Distinct-group_from gs [] d = d
Distinct-group_from gs (p ∷ ps) d =
    Distinct-group_from (add_to_group (category_label p) p gs) ps
      (Distinct-add_to_group (category_label p) p gs d)

-- Grouping sorts the products by their category and loses none: no two groups have one label, and
-- under each label stand the products of that category, all of them and in their old order.
pub group_products_by_category-under :
    (label : String) (ps : List Product)
    → Distinct (group_products_by_category ps)
      × (products_under label (group_products_by_category ps)
          ≡ select (λ p. str_eq (category_label p) label) ps)
unfolding group_products_by_category
group_products_by_category-under label ps =
    (Distinct-group_from [] ps tt, products_under-group_from label [] ps)
