-- ===== src/Db/Checkout/Stock.antt =====
-- What the loop over the cart in `checkout_cart` of db/repository.py does to the stock.
use mathlib.Core.Path.{fun_ext, subst}
use mathlib.Core.List.{map-map}
use whatsapp_commerce_bot.Base.{
  ℕ, ◌+◌, ◌≡◌, refl, sym, ◌∙◌, ap, ◌≢◌, ◌⊎◌, inl, inr, true, false, none, some, List, [], ◌∷◌, map,
  arith, ◌==◌, if◌then◌else◌, All, total_of, length, Bool-cases, Option-cases,
}
use whatsapp_commerce_bot.Base.Int.{ℤ, pos, ◌-ℤ◌, ◌≤ℤ◌, leb_ℤ, int_laws}
use whatsapp_commerce_bot.Base.Table.{
  select_one, update_where, update_where-All, select_one_holds, select_one-All, Unique,
  update_where-Unique,
}
use whatsapp_commerce_bot.Db.{Product}
use whatsapp_commerce_bot.Db.Products.{is_product}
use whatsapp_commerce_bot.Db.Checkout.{
  Cart, LineItem, sellable, sold, sell, add_outcome, take_stock,
}

abbrev pub product_id_of : Product → ℕ
product_id_of p = p.id

-- The quantity of a product in the items of an order of a tenant.
abbrev pub ordered : ℕ → List LineItem → Product → ℕ
ordered tenant_id items p =
    if p.tenant_id == tenant_id
    then total_of (λ (i : LineItem). if i.product_id == p.id then i.quantity else 0) items
    else 0

abbrev pub after_sale : ℕ → List LineItem → Product → Product
after_sale tenant_id items p = record p {
  stock_quantity = p.stock_quantity -ℤ pos (ordered tenant_id items p);
}

leb_ℤ→≤ℤ : (a b : ℤ) → leb_ℤ a b ≡ true → a ≤ℤ b
leb_ℤ→≤ℤ a b h = ground arith

cons_ne_nil : {i : LineItem} {is : List LineItem} → ¬ (i ∷ is ≡ [])
cons_ne_nil h = cc

abbrev set_stock : Product → ℤ → Product
set_stock p n = record p { stock_quantity = n }

abbrev debited : ℕ → ℕ → ℕ → Product → ℕ
debited t pid q p = if is_product t pid p then q else 0

abbrev debit : ℕ → ℕ → ℕ → Product → Product
debit t pid q p = set_stock p (p.stock_quantity -ℤ pos (debited t pid q p))

sub_zero : (a : ℤ) → a -ℤ pos 0 ≡ a
sub_zero a = omega int_laws

sub_sub : (a : ℤ) (m n : ℕ) → a -ℤ pos m -ℤ pos n ≡ a -ℤ pos (m + n)
sub_sub a m n = omega int_laws

-- The update of one row is a debit, where the row is sellable or of another id.
update_is_debit :
    (t pid q : ℕ) (r : Product)
    → (sellable t pid q r ≡ true) ⊎ (is_product t pid r ≡ false)
    → (if sellable t pid q r then sold q r else r) ≡ debit t pid q r
update_is_debit t pid q r (inl now) = ground arith
update_is_debit t pid q r (inr other) =
    rw other (sym (ap (set_stock r) (sub_zero r.stock_quantity)))

-- Rows of other ids are left alone by the update and by the debit.
others_kept :
    (t pid q : ℕ) (rs : List Product)
    → All (λ r. r.id ≢ pid) rs
    → update_where (sellable t pid q) (sold q) rs ≡ map (debit t pid q) rs
unfolding update_where
others_kept t pid q [] h = refl
others_kept t pid q (r ∷ rs) h =
    cc (update_is_debit t pid q r (inr (ground arith)), others_kept t pid q rs h.1)

sellable_id : (t pid q : ℕ) (r : Product) → sellable t pid q r ≡ true → r.id ≡ pid
sellable_id t pid q r h = ground arith

-- With ids that differ, the update changes the row that the query finds, and no other.
sell_found :
    (t pid q : ℕ) (rs : List Product) (p : Product)
    → Unique product_id_of rs
    → select_one (sellable t pid q) rs ≡ some p
    → update_where (sellable t pid q) (sold q) rs ≡ map (debit t pid q) rs
unfolding update_where select_one
sell_found t pid q [] p u e = refl
sell_found t pid q (r ∷ rs) p u e = elim (Bool-cases (sellable t pid q r)) [
  | inl now ↦ cc (
    update_is_debit t pid q r (inl now),
    others_kept t pid q rs (subst (λ k. All (λ s. s.id ≢ k) rs) (sellable_id t pid q r now) u.0),
  )
  | inr later ↦
      let found : select_one (sellable t pid q) rs ≡ some p = rw later at e in
      let ne : p.id ≢ r.id = select_one-All (λ s. s.id ≢ r.id) (sellable t pid q) rs u.0 found in
      let id : p.id ≡ pid = sellable_id t pid q p (select_one_holds (sellable t pid q) rs found) in
      cc (update_is_debit t pid q r (inr (ground arith)), sell_found t pid q rs p u.1 found)
]

-- One step of the ledger: the items of the rest, after the debit of the first.
after_sale-debit :
    (t pid q price : ℕ) (items : List LineItem) (p : Product)
    → after_sale t items (debit t pid q p)
      ≡ after_sale t (record { product_id = pid; quantity = q; unit_price = price } ∷ items) p
after_sale-debit t pid q price items p = ap (set_stock p) (
    sub_sub p.stock_quantity (debited t pid q p) (ordered t items p)
    ∙ ap (λ n. p.stock_quantity -ℤ pos n) (ground arith))

after_sale-nil : (t : ℕ) (p : Product) → after_sale t [] p ≡ p
after_sale-nil t p =
    ap (set_stock p)
      (ap (λ n. p.stock_quantity -ℤ pos n) (ground arith) ∙ sub_zero p.stock_quantity)

map_id : (f : Product → Product) → ((p : Product) → f p ≡ p) → (rs : List Product) → map f rs ≡ rs
map_id f h [] = refl
map_id f h (r ∷ rs) = cc (h r, map_id f h rs)

-- Ids are not written by a sale.
sell-Unique :
    (t pid q : ℕ) (rs : List Product)
    → Unique product_id_of rs
    → Unique product_id_of (update_where (sellable t pid q) (sold q) rs)
sell-Unique t pid q rs u =
    update_where-Unique product_id_of (sellable t pid q) (sold q) (λ r. refl) rs u

abbrev item : ℕ → ℕ → Product → LineItem
item pid q p = record { product_id = pid; quantity = q; unit_price = p.price }

-- The two ways in which an entry of the cart goes.
take_stock_missing :
    (t pid q : ℕ) (cart : Cart) (rows : List Product)
    → select_one (sellable t pid q) rows ≡ none
    → take_stock t ((pid, q) ∷ cart) rows ≡ add_outcome pid none (take_stock t cart rows)
unfolding take_stock sell
take_stock_missing t pid q cart rows h = ground arith

take_stock_found :
    (t pid q : ℕ) (cart : Cart) (rows : List Product) (p : Product)
    → select_one (sellable t pid q) rows ≡ some p
    → take_stock t ((pid, q) ∷ cart) rows
      ≡ add_outcome pid
          (some (item pid q p))
          (take_stock t cart (update_where (sellable t pid q) (sold q) rows))
unfolding take_stock sell
take_stock_found t pid q cart rows p h = ground arith

-- Where product ids differ, every product of the table loses what the items hold of it, if it is the tenant's; all other
-- columns, all other products and every other tenant's stock stay as they were.
pub take_stock-after_sale :
    (tenant_id : ℕ) (cart : Cart) (rows : List Product)
    → Unique product_id_of rows
    → let t = take_stock tenant_id cart rows in
      t.rows ≡ map (after_sale tenant_id t.line_items) rows
unfolding take_stock
take_stock-after_sale t [] rows u = sym (map_id (after_sale t []) (after_sale-nil t) rows)
take_stock-after_sale t ((pid, q) ∷ cart) rows u =
    elim (Option-cases (select_one (sellable t pid q) rows)) [
      | inl missing ↦
          rw (take_stock_missing t pid q cart rows missing) (take_stock-after_sale t cart rows u)
      | inr (p, found) ↦
          let sold_rows = update_where (sellable t pid q) (sold q) rows in
          let rest = take_stock t cart sold_rows in
          rw (take_stock_found t pid q cart rows p found) (
            take_stock-after_sale t cart sold_rows (sell-Unique t pid q rows u)
            ∙ ap (map (after_sale t rest.line_items)) (sell_found t pid q rows p u found)
            ∙ map-map (after_sale t rest.line_items) (debit t pid q) rows
            ∙ ap (λ f. map f rows) (fun_ext (after_sale-debit t pid q p.price rest.line_items)))
    ]

abbrev pub IsStocked : Product → Type 0
IsStocked p = pos 0 ≤ℤ p.stock_quantity

sold-IsStocked :
    (t pid q : ℕ) (p : Product) → sellable t pid q p ≡ true → IsStocked p → IsStocked (sold q p)
sold-IsStocked t pid q p h s = omega (int_laws, leb_ℤ→≤ℤ (pos q) p.stock_quantity (ground arith))

-- Taking the stock for a cart leaves no product, of any tenant, with a stock below zero, where none
-- had one before.
pub take_stock-IsStocked :
    (tenant_id : ℕ) (cart : Cart) (rows : List Product)
    → All IsStocked rows
    → All IsStocked (take_stock tenant_id cart rows).rows
unfolding take_stock
take_stock-IsStocked t [] rows h = h
take_stock-IsStocked t ((pid, q) ∷ cart) rows h =
    elim (Option-cases (select_one (sellable t pid q) rows)) [
      | inl missing ↦
          rw (take_stock_missing t pid q cart rows missing) (take_stock-IsStocked t cart rows h)
      | inr (p, found) ↦ rw (take_stock_found t pid q cart rows p found) (
          take_stock-IsStocked t cart (update_where (sellable t pid q) (sold q) rows) (
            update_where-All IsStocked (sellable t pid q) (sold q) (sold-IsStocked t pid q) rows h))
    ]

-- Every entry of the cart is dropped or becomes an item: the two lists have the cart's length
-- together.
take_stock-partition :
    (tenant_id : ℕ) (cart : Cart) (rows : List Product)
    → let t = take_stock tenant_id cart rows in
      length t.unavailable + length t.line_items ≡ length cart
unfolding take_stock
take_stock-partition t [] rows = refl
take_stock-partition t ((pid, q) ∷ cart) rows =
    elim (Option-cases (select_one (sellable t pid q) rows)) [
      | inl missing ↦
          rw (take_stock_missing t pid q cart rows missing)
            (omega (arith, take_stock-partition t cart rows))
      | inr (p, found) ↦ rw (take_stock_found t pid q cart rows p found) (
          omega
            (arith, take_stock-partition t cart (update_where (sellable t pid q) (sold q) rows)))
    ]

-- Nothing sold, nothing changed.
pub take_stock-unsold :
    (tenant_id : ℕ) (cart : Cart) (rows : List Product)
    → (take_stock tenant_id cart rows).line_items ≡ []
    → (take_stock tenant_id cart rows).rows ≡ rows
unfolding take_stock
take_stock-unsold t [] rows h = refl
take_stock-unsold t ((pid, q) ∷ cart) rows h =
    elim (Option-cases (select_one (sellable t pid q) rows)) [
      | inl missing ↦
          rw (take_stock_missing t pid q cart rows missing)
            (take_stock-unsold t cart rows (rw (take_stock_missing t pid q cart rows missing) at h))
      | inr (p, found) ↦ absurd (cons_ne_nil (rw (take_stock_found t pid q cart rows p found) at h))
    ]
